-- ===== src/Store/Memory/Refines.antt =====
-- stores/memory.go against interface.go: the map of jobs that a state of the memory store stands
-- for, and what each operation does to it.
use mathlib.Core.Logic.Or
use mathlib.Core.List.{Mem, Perm, mem-cons_self, mem-cons_of_mem, mem-cons, not-mem-nil}
use mathlib.Core.List.Perm
use native.Mathlib.Nat.{le_refl}
use native.Mathlib.Bridge.{le_prop}
use agscheduler.Base.{
  some≢none, ◌≤◌, String, ◌≡◌, refl, inl, inr, Option, none, some, List, [], ◌∷◌, arith,
  if◌then◌else◌, ◌==◌, All, Bool-cases, Option-cases, subst, ◌≢◌,
}
use agscheduler.Errors.{job_not_found}
use agscheduler.Result.{Result, ok-injective, ok, err}
use agscheduler.Time.{Time}
use agscheduler.Job.{Job}
use agscheduler.Store.Contract.{AddsAny, IsAscending, IsSorting, Becomes, IsMap, IsLawful}
use agscheduler.Store.Memory.{
  MemoryStore, jobs, add_job, find_job, delete_all_jobs, get_job, update_job, index_of, delete_job,
  first_time, earliest, get_next_run_time, memory_store,
}
use agscheduler.Store.Memory.Contents.{
  IsValid, jobs-add_job, add_job-IsValid, jobs-update_job, update_job-IsValid, jobs-shift_down,
  shift_down-IsValid,
}
use agscheduler.Store.Memory.Lookup.{
  Distinct, id-find_job, find_job-append, find_job-replace_job, replace_job_found,
  replace_job_missing, index_of_missing, find_job-without_job, find_job_missing, append-Distinct,
  replace_job-Distinct, without_job-Distinct,
}

pub record IsWellFormed (s : MemoryStore) : Type 0 where
  pub valid : IsValid s
  pub distinct : Distinct (jobs s)

-- The map that a state stands for.
abbrev pub view : MemoryStore → String → Option Job
view s i = find_job i (jobs s)

abbrev pub Refines : Result (Unit {0}) × MemoryStore → (String → Option Job) → Type 0
Refines = Becomes IsWellFormed view

-- From a well-formed memory store, adding a job under a new identifier succeeds, keeps the store
-- well-formed, and changes what is found under that identifier and under no other.
add_job-Refines :
    (s : MemoryStore) (j : Job)
    → IsWellFormed s
    → view s j.id ≡ none
    → Refines (add_job j s) (λ i. if j.id == i then some j else view s i)
unfolding add_job
add_job-Refines s j w fresh = record {
  done = refl;
  keeps = record {
    valid = add_job-IsValid j s w.valid;
    distinct = rw (jobs-add_job j s w.valid) (append-Distinct (jobs s) j w.distinct fresh);
  };
  views = λ i. rw (jobs-add_job j s w.valid) (find_job-append i (jobs s) j fresh);
}

-- From a well-formed memory store, updating a job that is stored succeeds, keeps the store well-
-- formed, and changes what is found under its identifier and under no other.
update_job-Refines :
    (s : MemoryStore) (j x : Job)
    → IsWellFormed s
    → view s j.id ≡ some x
    → Refines (update_job j s) (λ i. if j.id == i then some j else view s i)
unfolding update_job
update_job-Refines s j x w found =
    let (js, e) = replace_job_found j x (jobs s) found in
    record {
      done = rw (e, update_job) refl;
      keeps = record {
        valid = update_job-IsValid j s w.valid;
        distinct =
            rw (jobs-update_job j s js w.valid e) (replace_job-Distinct j (jobs s) js w.distinct e);
      };
      views = λ i. rw (jobs-update_job j s js w.valid e) (find_job-replace_job i j (jobs s) js e);
    }

-- From a well-formed memory store, deleting a job that is stored succeeds, keeps the store well-
-- formed, and afterwards nothing is found under its identifier, and under every other what was
-- found before.
delete_job-Refines :
    (s : MemoryStore) (id : String) (x : Job)
    → IsWellFormed s
    → view s id ≡ some x
    → Refines (delete_job id s) (λ i. if id == i then none else view s i)
unfolding delete_job
delete_job-Refines s id x w found = elim (Option-cases (index_of id (jobs s))) [
  | inl e ↦ absurd (cc (found, find_job_missing id (jobs s) e))
  | inr (k, e) ↦ record {
    done = rw (e, delete_job) refl;
    keeps =
        rw (e, delete_job)
          (record {
            valid = shift_down-IsValid id k s w.valid e;
            distinct =
                rw (jobs-shift_down id k s w.valid e) (without_job-Distinct id (jobs s) w.distinct);
          });
    views = λ i.
        rw (e, delete_job)
          (rw (jobs-shift_down id k s w.valid e) (find_job-without_job i id (jobs s) w.distinct));
  }
]

-- In the memory store, a job that is not stored can be neither read, updated nor deleted: each
-- call reports that it was not found, and leaves the store as it was.
missing_job :
    (s : MemoryStore) (j : Job)
    → view s j.id ≡ none
    → (get_job j.id s ≡ err (job_not_found j.id))
      × (update_job j s ≡ (err (job_not_found j.id), s))
      × (delete_job j.id s ≡ (err (job_not_found j.id), s))
unfolding get_job update_job delete_job
missing_job s j h = (
  rw h refl,
  rw (replace_job_missing j (jobs s) h, update_job) refl,
  rw (index_of_missing j.id (jobs s) h, delete_job) refl,
)

pub mem_of_find : (i : String) (js : List Job) (j : Job) → find_job i js ≡ some j → Mem j js
unfolding find_job
mem_of_find i [] j h = cc
mem_of_find i (x ∷ xs) j h = elim (Bool-cases (x.id == i)) [
  | inl e ↦ subst (λ y. Mem y (x ∷ xs)) (ground arith) (mem_cons_self' x xs)
  | inr e ↦ mem-cons_of_mem x (mem_of_find i xs j (ground arith))
]
  where
    mem_cons_self' : (y : Job) (ys : List Job) → Mem y (y ∷ ys)
    mem_cons_self' y ys = mem-cons_self

pub le_of_All :
    (t : Time) (js : List Job) (j : Job)
    → All (λ k. t ≤ k.next_run_time) js
    → Mem j js
    → t ≤ j.next_run_time
le_of_All t [] j a m = absurd (not-mem-nil m)
le_of_All t (x ∷ xs) j a m =
    Or.elim le_prop (mem-cons.0 m) (λ e. rw e a.0) (λ rest. le_of_All t xs j a.1 rest)

pub first_time-le :
    (js : List Job) (j : Job) → IsAscending js → Mem j js → first_time js ≤ j.next_run_time
unfolding first_time
first_time-le [] j a m = absurd (not-mem-nil m)
first_time-le (x ∷ xs) j a m =
    Or.elim le_prop (mem-cons.0 m) (λ e. rw e (le_refl _))
      (λ rest. le_of_All x.next_run_time xs j a.0 rest)

module _ {sort : List Job → List Job} (sorting : IsSorting sort) where
  pub earliest-le : (js : List Job) (j : Job) → Mem j js → earliest sort js ≤ j.next_run_time
  unfolding earliest
  earliest-le [] j m = absurd (not-mem-nil m)
  earliest-le (x ∷ xs) j m =
      first_time-le (sort (x ∷ xs)) j (sorting.ascends (x ∷ xs))
        ((Perm.mem_iff (sorting.permutes (x ∷ xs))).1 m)

  first_time-mem :
      (x : Job) (xs ks : List Job)
      → Perm ks (x ∷ xs)
      → ∥ ((j : Job) × Mem j (x ∷ xs) × (j.next_run_time ≡ first_time ks)) ∥₁
  unfolding first_time
  first_time-mem x xs [] p = absurd (not-mem-nil ((Perm.mem_iff p).1 mem-cons_self))
  first_time-mem x xs (k ∷ ks) p = ∣ (k, (Perm.mem_iff p).0 mem-cons_self, refl) ∣₁

  earliest-mem :
      (js : List Job) → js ≢ [] → ∥ ((j : Job) × Mem j js × (j.next_run_time ≡ earliest sort js)) ∥₁
  unfolding earliest
  earliest-mem [] h = absurd (h refl)
  earliest-mem (x ∷ xs) h = first_time-mem x xs (sort (x ∷ xs)) (sorting.permutes (x ∷ xs))

  -- With a sorting function that sorts, the next run time of a memory store that holds a job is
  -- the least among its jobs: none runs earlier, and one runs then.
  pub get_next_run_time_least :
      (s : MemoryStore)
      → jobs s ≢ []
      → (t : Time) × (get_next_run_time sort s ≡ ok t)
        × ((j : Job) → Mem j (jobs s) → t ≤ j.next_run_time)
        × ∥ ((j : Job) × Mem j (jobs s) × (j.next_run_time ≡ t)) ∥₁
  unfolding get_next_run_time
  get_next_run_time_least s h =
      (earliest sort (jobs s), refl, earliest-le (jobs s), earliest-mem (jobs s) h)

  memory_store-AddsAny : AddsAny IsWellFormed view (λ j. some j) (memory_store sort)
  memory_store-AddsAny s j k w fresh e =
      subst (λ o. Refines (add_job j s) (λ i. if j.id == i then o else view s i)) e
        (add_job-Refines s j w fresh)

  memory_store-IsMap : IsMap IsWellFormed view (λ j. some j) (memory_store sort)
  unfolding get_job delete_all_jobs find_job
  memory_store-IsMap = record {
    id_view = λ s i j w. id-find_job i (jobs s) j;
    get = λ s i w. refl;
    add = λ s j k w named. memory_store-AddsAny s j k w;
    update = λ s j x k w found e.
        subst (λ o. Refines (update_job j s) (λ i. if j.id == i then o else view s i)) e
          (update_job-Refines s j x w found);
    refuse_new = λ s j w fresh e. absurd (some≢none e);
    refuse = λ s j x w found e. absurd (some≢none e);
    delete = delete_job-Refines;
    delete_all = λ s w. record {
      done = refl;
      keeps = record { valid = record { fits = omega arith }; distinct = tt };
      views = λ i. refl;
    };
  }

  -- With a sorting function that sorts, the memory store keeps the contract that the scheduler
  -- relies on: from a well-formed state, getting, adding, updating and deleting a job and deleting
  -- all jobs act as on a map from identifiers to jobs and keep the state well-formed, jobs are
  -- kept as they are, and the next run time can always be computed and is no later than that of
  -- any stored job; a job without an identifier can be added as well.
  pub memory_store-IsLawful :
      IsLawful IsWellFormed view (λ j. some j) (memory_store sort)
      × AddsAny IsWellFormed view (λ j. some j) (memory_store sort)
  unfolding get_next_run_time
  memory_store-IsLawful = (
    record {
      map_laws = memory_store-IsMap;
      next_total = λ s w. (earliest sort (jobs s), refl);
      next_least = λ s t i j w e found.
          omega (arith, ok-injective e, earliest-le (jobs s) j (mem_of_find i (jobs s) j found));
    },
    memory_store-AddsAny,
  )
