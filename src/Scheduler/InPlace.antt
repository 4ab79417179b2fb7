-- ===== src/Scheduler/InPlace.antt =====
-- A round of `run` of scheduler.go over the memory store, whose array it visits while it updates
-- the jobs in it.
use mathlib.Core.List.{Perm}
use agscheduler.Base.{
  some≢none, ℕ, suc, ◌+◌, String, ◌≡◌, ◌≢◌, refl, ap, ◌∙◌, subst, ◌⊎◌, inl, inr, Option, none, some,
  List, ◌∷◌, ◌++◌, map, All, take, drop, length, ne→test, get_elem?_of_drop, drop_of_drop,
  Option-cases,
}
use agscheduler.Errors.{Error, update_failed}
use agscheduler.Result.{ok-injective, Result, ok, err, panic}
use agscheduler.Exec.{continue, pure}
use agscheduler.Time.{Time, whole_seconds}
use agscheduler.Job.{Job, full_name, type_datetime}
use agscheduler.Job.Calc.{calc_next_run_time}
use agscheduler.Job.Ready.{calc-last_run_time}
use agscheduler.Job.Init.{FuncMap}
use agscheduler.Env.{Env}
use agscheduler.Store.{Slice, Store, shared, elements, element, sort_slice}
use agscheduler.Store.Contract.{IsLawful, IsSorting}
use agscheduler.Store.Listing.{IsListOf-perm}
use agscheduler.Store.Memory as Memory
use agscheduler.Store.Memory.{MemoryStore, jobs, find_job, memory_store}
use agscheduler.Store.Memory.Refines.{IsWellFormed, view, memory_store-IsLawful}
use agscheduler.Store.Memory.Sorted.{
  Shows, update_job-Shows, sorted-IsWellFormed, jobs-set_cells, length-perm,
}
use agscheduler.Store.Memory.Contents.{length-jobs}
use agscheduler.Scheduler.{World, armed, fired, update_job}
use agscheduler.Scheduler.Jobs.{
  update_job_run, update_job_refused, update_job_rejected, missing_job_unchanged,
}
use agscheduler.Scheduler.Run.{flush_job, map_err}
use agscheduler.Scheduler.Loop.{log_err, tick}
use agscheduler.Scheduler.Quiet.{ran_ids, IsSteady, IsRunnable}
use agscheduler.Scheduler.Quiet.Calls.{check_cases}
use agscheduler.Scheduler.Rounds.{due_prefix, run_due_run, timed_again, IsWindow}
use agscheduler.Scheduler.Ticks.{round-IsRound}

module _ {S : Type 0} where
  -- Wrapping and logging an error change no store.
  store-log_err : (r : Result (Unit {0}) × World S) → (log_err r).1.store ≡ r.1.store
  unfolding log_err
  store-log_err (ok u, w) = refl
  store-log_err (err e, w) = refl
  store-log_err (panic p, w) = refl

  store-then :
      {A : Type 0} (f : Error → Error) (r : Result A × World S)
      → (continue (map_err f r) (λ _. pure tt)).1.store ≡ r.1.store
  unfolding map_err
  store-then f (ok a, w) = refl
  store-then f (err e, w) = refl
  store-then f (panic p, w) = refl

module _ (env : Env) {S : Type 0} {store : Store S} {Inv : S → Type 0}
    {view : S → String → Option Job} {kept : Job → Option Job}
    (lawful : IsLawful Inv view kept store) (fs : FuncMap) where
  -- An update changes the store by one update of that job, or not at all.
  store-update_job :
      (w : World S) (j : Job)
      → IsSteady Inv fs w
      → ((now : Time) → (t : Time) × (calc_next_run_time env now j ≡ ok t))
      → ((update_job env store j w).1.store ≡ w.store)
        ⊎ ((t : Time) × ((update_job env store j w).1.store
              ≡ (store.update_job (record j { next_run_time = t }) w.store).1))
  store-update_job w j steady timed = elim (Option-cases (view w.store j.id)) [
    | inl absent ↦ inl (rw (missing_job_unchanged env lawful w j steady.stored absent).1 refl)
    | inr (x, found) ↦ elim (check_cases env w.func_map j) [
      | inr (e, bad) ↦
          inl (rw (update_job_rejected env lawful w j x e steady.stored found bad) refl)
      | inl good ↦
          let (t, calc) = timed (env.clock w.clock_reads) in
          elim (Option-cases (kept (record j { next_run_time = t }))) [
            | inl lost ↦
                let (e, refused) =
                  update_job_refused env lawful w j x t steady.stored found good calc lost in
                inl (rw refused refl)
            | inr (k, keep) ↦
                let (v, run, at, rest) =
                  update_job_run env lawful w j x k t steady.stored found good calc steady.ticks
                    keep in
                inr (t, rw run at)
          ]
    ]
  ]

-- A job that the round can start, and that it does not delete.
pub record IsRepeating (env : Env) (fs : FuncMap) (j : Job) : Type 0 where
  pub runnable : IsRunnable env fs j
  pub repeats : j.type ≢ type_datetime

module _ (env : Env) (sorting : IsSorting env.sort) (fs : FuncMap) where
  abbrev store : Store MemoryStore
  store = memory_store env.sort

  abbrev lawful : IsLawful IsWellFormed view (λ j. some j) store
  lawful = (memory_store-IsLawful sorting).0

  flush_job-Shows :
      (n k : ℕ) (w : World MemoryStore) (now : Time) (x j : Job) (xs : List Job)
      → IsSteady IsWellFormed fs w
      → ((at : Time) → (t : Time) × (calc_next_run_time env at j ≡ ok t))
      → j.type ≢ type_datetime
      → x.id ≡ j.id
      → Shows n w.store k (x ∷ xs)
      → Shows n (flush_job env store j now w).1.store (suc k) xs
  unfolding flush_job
  flush_job-Shows n k w now x j xs steady timed repeats same shows =
      let stamped = record j { last_run_time = whole_seconds now } in
      let again = λ (at : Time).
        let (t, e) = timed at in
        let r : (t : Time) × (calc_next_run_time env at stamped ≡ ok t) =
          (t, calc-last_run_time env at (whole_seconds now) j ∙ e) in
        r in
      rw
        (
          ne→test j.type type_datetime repeats,
          store-then (update_failed (full_name j)) (update_job env store stamped w),
        )
        (elim (store-update_job env lawful fs w stamped steady again) [
          | inl e ↦ rw e (shows.0, drop_of_drop k (jobs w.store) x xs shows.1)
          | inr (t, e) ↦ rw e (
              update_job-Shows n k w.store x (record stamped { next_run_time = t }) xs steady.stored
                same shows)
        ])

  shared-IsWindow : (n : ℕ) → IsWindow env lawful fs (shared n) (IsRepeating env fs) (Shows n)
  unfolding element
  shared-IsWindow n = record {
    runnable = λ j can. can.runnable;
    head = λ s k x xs (len, shown).
        get_elem?_of_drop k (take n s.array) x xs
          (subst (λ m. drop k (take m s.array) ≡ x ∷ xs) len shown);
    keeps = λ w now k x xs steady can shows.
        let (t, v, run, at, still, started) =
          run_due_run env lawful fs w x now steady can.runnable in
        let timed = record x { next_run_time = t } in
        rw (run, store-log_err (flush_job env store timed now v))
          (flush_job-Shows n k v now x timed xs still (timed_again env lawful fs x t can.runnable)
            can.repeats refl (rw at shows));
  }

-- Sorting the slice of the memory store in place leaves it well-formed.
pub sort_slice-IsWellFormed :
    {sort : List Job → List Job} (s : MemoryStore) (js : Slice)
    → IsSorting sort
    → IsWellFormed s
    → (memory_store sort).get_all_jobs s ≡ ok js
    → let sorted = (sort_slice (memory_store sort) sort js s).1 in
      IsWellFormed sorted × ((i : String) → view sorted i ≡ view s i)
unfolding sort_slice Memory.get_all_jobs
sort_slice-IsWellFormed {sort = sort} s js sorting w h =
    let same =
      IsListOf-perm {map_of = view s} (jobs s) (sort (jobs s)) (sorting.permutes (jobs s))
        (record { distinct = w.distinct; finds = λ i. refl }) in
    let as_long =
      length-perm (sort (jobs s)) (jobs s) (sorting.permutes (jobs s)) ∙ length-jobs s w.valid in
    subst
      (λ l.
        let sorted = (sort_slice (memory_store sort) sort l s).1 in
        IsWellFormed sorted × ((i : String) → view sorted i ≡ view s i))
      (ok-injective h)
      (
        sorted-IsWellFormed s (sort (jobs s)) (sorting.permutes (jobs s)) w,
        λ i. ap (find_job i) (jobs-set_cells s (sort (jobs s)) as_long) ∙ same.finds i,
      )

module _ (env : Env) where
  -- When the timer fires in standalone mode, with a sorting function that sorts, over a well-
  -- formed memory store that holds at least one job: if each of the jobs at the front of the
  -- sorted array that are due names a registered function and no queue, has a next run time that
  -- can be computed at any time and a type other than "datetime", then these jobs are started,
  -- each once and in that order, and no other is, although the round writes to the array that it
  -- visits; the round ends without an error, the timer is set again and the store stays well-
  -- formed.
  pub tick_in_place :
      (w : World MemoryStore) (j : Job) (js : List Job)
      → IsSorting env.sort
      → IsWellFormed w.store
      → w.cluster_node ≡ none
      → jobs w.store ≡ j ∷ js
      → All (IsRepeating env w.func_map) (due_prefix (env.clock w.clock_reads) (env.sort (j ∷ js)))
      → let r = tick env (memory_store env.sort) w in
        let due = due_prefix (env.clock w.clock_reads) (env.sort (j ∷ js)) in
        (r.0 ≡ ok tt)
        × (ran_ids r.1.events ≡ ran_ids w.events ++ map (λ k. k.id) due)
        × ((d : ℕ) × (r.1.timer ≡ some (armed d)))
        × IsWellFormed r.1.store
  unfolding tick elements sort_slice Memory.get_all_jobs
  tick_in_place w j js sorting stored standalone listing can =
      let s = w.store in
      let woken : World MemoryStore = record w {
        timer = some fired;
        clock_reads = w.clock_reads + 1;
      } in
      let perm : Perm (env.sort (j ∷ js)) (jobs s) = rw listing (sorting.permutes (j ∷ js)) in
      let as_long : length (env.sort (j ∷ js)) ≡ s.len =
        length-perm (env.sort (j ∷ js)) (jobs s) perm ∙ length-jobs s stored.valid in
      let array = env.sort (j ∷ js) ++ drop s.len s.array in
      let shown : take s.len array ≡ env.sort (j ∷ js) =
        jobs-set_cells s (env.sort (j ∷ js)) as_long in
      let rounded =
        round-IsRound env (memory_store-IsLawful sorting).0 w.func_map woken
          (env.clock w.clock_reads) (shared s.len) (shared s.len) (record s { array = array })
          (rw listing refl) (shared-IsWindow env sorting w.func_map s.len)
          (record {
            stored = sorted-IsWellFormed s (env.sort (j ∷ js)) perm stored;
            ticks = some≢none;
            standalone = standalone;
            funcs = refl;
          })
          (rw shown can) (refl, refl) in
      rw listing (rw shown at rounded)
