-- ===== src/Store/Memory/Contents.antt =====
-- The jobs of the memory store as a list, and what each operation does to that list.
use agscheduler.Base.{
  ℕ, suc, ◌+◌, ◌-◌, ◌≤◌, String, ◌≡◌, ◌∙◌, inl, inr, some, List, [], ◌∷◌, ◌++◌, arith,
  if◌then◌else◌, ◌==◌, Option-cases, length, take, drop, length-append, length-take, length-drop,
  take-append, append_assoc,
}
use agscheduler.Job.{Job}
use agscheduler.Store.Memory.{
  MemoryStore, jobs, add_job, replace_job, update_job, index_of, shift_down,
}

-- The elements in use are elements of the array.
pub record IsValid (s : MemoryStore) : Type 0 where
  pub fits : s.len ≤ length s.array

pub length-jobs : (s : MemoryStore) → IsValid s → length (jobs s) ≡ s.len
length-jobs s v = omega (arith, length-take s.len s.array)

-- The first job with the identifier is gone.
unfoldable pub without_job : String → List Job → List Job
without_job id [] = []
without_job id (j ∷ js) = if j.id == id then js else j ∷ without_job id js

pub jobs-add_job : (j : Job) (s : MemoryStore) → IsValid s → jobs (add_job j s).1 ≡ jobs s ++ j ∷ []
unfolding add_job
jobs-add_job j s v = rw (← append_assoc (jobs s) (j ∷ []) (drop (s.len + 1) s.array)) (
    take-append (s.len + 1) (jobs s ++ j ∷ []) (drop (s.len + 1) s.array)
      (omega (arith, length-append (jobs s) (j ∷ []), length-jobs s v)))

pub add_job-IsValid : (j : Job) (s : MemoryStore) → IsValid s → IsValid (add_job j s).1
unfolding add_job
add_job-IsValid j s v = record {
  fits = omega (arith, length-append (jobs s) (j ∷ drop (s.len + 1) s.array), length-jobs s v);
}

length-replace_job :
    (j : Job) (js ks : List Job) → replace_job j js ≡ some ks → length ks ≡ length js
unfolding replace_job
length-replace_job j [] ks h = cc
length-replace_job j (x ∷ xs) ks h = elim (Option-cases (replace_job j xs)) [
  | inl e ↦ ground arith
  | inr (rest, e) ↦ ground (arith, length-replace_job j xs rest e)
]

index_of-lt : (id : String) (js : List Job) (i : ℕ) → index_of id js ≡ some i → i + 1 ≤ length js
unfolding index_of
index_of-lt id [] i h = cc
index_of-lt id (x ∷ xs) i h = elim (Option-cases (index_of id xs)) [
  | inl e ↦ ground arith
  | inr (k, e) ↦ ground (arith, index_of-lt id xs k e)
]

-- What the shift leaves in front is the list without the job.
shift-eq-without_job :
    (id : String) (js : List Job) (i : ℕ)
    → index_of id js ≡ some i
    → take i js ++ drop (suc i) js ≡ without_job id js
unfolding index_of without_job
shift-eq-without_job id [] i h = cc
shift-eq-without_job id (x ∷ xs) i h = elim (Option-cases (index_of id xs)) [
  | inl e ↦ ground arith
  | inr (k, e) ↦ ground (arith, shift-eq-without_job id xs k e)
]

length-shift :
    (js : List Job) (i : ℕ)
    → i + 1 ≤ length js
    → length (take i js ++ drop (i + 1) js) ≡ length js - 1
length-shift js i h =
    omega
      (arith, length-append (take i js) (drop (i + 1) js), length-take i js, length-drop (i + 1) js)

pub jobs-shift_down :
    (id : String) (i : ℕ) (s : MemoryStore)
    → IsValid s
    → index_of id (jobs s) ≡ some i
    → jobs (shift_down i s) ≡ without_job id (jobs s)
unfolding shift_down
jobs-shift_down id i s v h =
    let bound = index_of-lt id (jobs s) i h in
    let step : i + 1 ≡ suc i = omega arith in
    rw (← append_assoc (take i (jobs s)) (drop (i + 1) (jobs s)) (drop (s.len - 1) s.array)) (
      take-append (s.len - 1) (take i (jobs s) ++ drop (i + 1) (jobs s)) (drop (s.len - 1) s.array)
        (omega (arith, length-shift (jobs s) i bound, length-jobs s v))
      ∙ rw step (shift-eq-without_job id (jobs s) i h))

pub shift_down-IsValid :
    (id : String) (i : ℕ) (s : MemoryStore)
    → IsValid s
    → index_of id (jobs s) ≡ some i
    → IsValid (shift_down i s)
unfolding shift_down
shift_down-IsValid id i s v h = record {
  fits = rw (← append_assoc (take i (jobs s)) (drop (i + 1) (jobs s)) (drop (s.len - 1) s.array)) (
      omega (
        arith,
        length-shift (jobs s) i (index_of-lt id (jobs s) i h),
        length-jobs s v,
        length-append (take i (jobs s) ++ drop (i + 1) (jobs s)) (drop (s.len - 1) s.array),
      ));
}

pub jobs-update_job :
    (j : Job) (s : MemoryStore) (js : List Job)
    → IsValid s
    → replace_job j (jobs s) ≡ some js
    → jobs (update_job j s).1 ≡ js
unfolding update_job
jobs-update_job j s js v h =
    rw (h, update_job)
      (take-append s.len js (drop s.len s.array)
        (length-replace_job j (jobs s) js h ∙ length-jobs s v))

pub update_job-IsValid : (j : Job) (s : MemoryStore) → IsValid s → IsValid (update_job j s).1
unfolding update_job
update_job-IsValid j s v = elim (Option-cases (replace_job j (jobs s))) [
  | inl e ↦ rw (e, update_job) v
  | inr (js, e) ↦
      rw (e, update_job)
        (record {
          fits = omega (
            arith,
            length-append js (drop s.len s.array),
            length-replace_job j (jobs s) js e,
            length-jobs s v,
          );
        })
]
