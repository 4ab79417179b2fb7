-- ===== src/Scheduler/Aliasing.antt =====
-- The memory store hands out its own array: `run` sorts and visits the array from which it deletes.
use agscheduler.Base.{
  ℕ, suc, ◌+◌, ◌≡◌, ◌≢◌, refl, ap, ◌∙◌, true, false, none, some, inl, inr, List, [], ◌∷◌, ◌++◌,
  append_assoc, if◌then◌else◌, ◌==◌, eq_refl, eq_iff, Option-cases, ne→test,
}
use agscheduler.Errors.{job_not_found, delete_failed}
use agscheduler.Result.{Result, ok}
use agscheduler.Exec.{continue}
use agscheduler.Time.{Time, before}
use agscheduler.Job.{Job, full_name, type_datetime}
use agscheduler.Job.Calc.{calc_next_run_time}
use agscheduler.Job.Init.{FuncMap}
use agscheduler.Job.Ready.{calc_zoned}
use agscheduler.Env.{Env}
use agscheduler.Store.{Store, shared, elements, element, sort_slice}
use agscheduler.Store.Memory as Memory
use agscheduler.Store.Memory.{MemoryStore, jobs, memory_store, find_job, index_of, shift_down}
use agscheduler.Store.Memory.Lookup.{index_of_missing}
use agscheduler.Scheduler.{World, Event, ran, logged, fired, delete_job, next_wakeup_interval}
use agscheduler.Scheduler.Run.{is_callable, flush_job, map_err}
use agscheduler.Scheduler.Loop.{log_err, run_at, run_due, visit, rearm, round, tick}
use agscheduler.Scheduler.Quiet.{ran_ids, ran_ids-append}
use agscheduler.Scheduler.Quiet.Calls.{schedule_starts}
use agscheduler.Scheduler.Rounds.{visit_step}

-- A job with a date that lies behind `now`, which can be run here.
pub record IsPast (env : Env) (fs : FuncMap) (now : Time) (j : Job) : Type 0 where
  pub kind : j.type ≡ type_datetime
  pub unqueued : j.queues ≡ []
  pub callable : is_callable fs j.func_name ≡ true
  pub dated : (at : Time) → calc_next_run_time env at j ≡ ok j.next_run_time
  pub late : before j.next_run_time now ≡ true

module _ (env : Env) {S : Type 0} (store : Store S) (now : Time) (j : Job) (w : World S) where
  flush_past :
      (v : World S)
      → IsPast env w.func_map now j
      → log_err (flush_job env store j now v)
        ≡ log_err (map_err (delete_failed (full_name j)) (delete_job env store j.id v))
  unfolding flush_job
  flush_past v past =
      let dated : (j.type == type_datetime) ≡ true = (eq_iff j.type type_datetime).1 past.kind in
      rw (dated, past.late) refl

  -- The job is started, and the rest of the turn deletes it.
  run_past :
      w.cluster_node ≡ none
      → IsPast env w.func_map now j
      → run_due env store now j w
        ≡ log_err (
            map_err (delete_failed (full_name j)) (
              delete_job env store j.id
                (record w { clock_reads = w.clock_reads + 1; events = w.events ++ ran j ∷ [] })))
  unfolding run_due
  run_past standalone past =
      let read : World S = record w { clock_reads = w.clock_reads + 1 } in
      let begun : World S = record read { events = w.events ++ ran j ∷ [] } in
      ap (λ (r : Result Time). run_at env store now j r read) (past.dated (env.clock w.clock_reads))
      ∙ ap
          (λ (r : Result (Unit {0}) × World S).
            continue (log_err r) (λ _. λ v. log_err (flush_job env store j now v)))
          (schedule_starts env j read standalone past.unqueued past.callable
            (calc_zoned env (env.clock w.clock_reads) j.next_run_time j (past.dated _)))
      ∙ flush_past begun past

module _ (env : Env) (now : Time) (j : Job) (w : World MemoryStore) where
  abbrev store : Store MemoryStore
  store = memory_store env.sort

  started : World MemoryStore
  started = record w { clock_reads = w.clock_reads + 1; events = w.events ++ ran j ∷ [] }

  -- A job that is in the store is started, and the elements behind it move down.
  past_step :
      (i : ℕ)
      → w.cluster_node ≡ none
      → IsPast env w.func_map now j
      → index_of j.id (jobs w.store) ≡ some i
      → run_due env store now j w ≡ (ok tt, record started { store = shift_down i w.store })
  unfolding started delete_job Memory.get_job Memory.delete_job log_err map_err
  past_step i standalone past at = elim (Option-cases (find_job j.id (jobs w.store))) [
    | inl none_found ↦ absurd (cc (at, index_of_missing j.id (jobs w.store) none_found))
    | inr (x, found) ↦
        run_past env store now j w standalone past ∙ rw (found, at, Memory.delete_job) refl
  ]

  -- A job that is no longer in the store is started all the same.
  past_gone :
      w.cluster_node ≡ none
      → IsPast env w.func_map now j
      → find_job j.id (jobs w.store) ≡ none
      → run_due env store now j w ≡ (
        ok tt,
        record started {
          events =
              (w.events ++ ran j ∷ [])
              ++ logged (delete_failed (full_name j) (job_not_found j.id)) ∷ [];
        },
      )
  unfolding started delete_job Memory.get_job Memory.delete_job log_err map_err
  past_gone standalone past gone = run_past env store now j w standalone past ∙ rw gone refl

  -- One turn of the loop at such a job.
  past_turn :
      (n k : ℕ) (v : World MemoryStore)
      → element store (shared 3) k w.store ≡ some j
      → before j.next_run_time now ≡ true
      → run_due env store now j w ≡ (ok tt, v)
      → visit env store (suc n) k (shared 3) now w ≡ visit env store n (suc k) (shared 3) now v
  past_turn n k v here late ran_it =
      visit_step env store n k (shared 3) now j w here
      ∙ ap
          (λ b.
            if b
            then continue (run_due env store now j w)
                (λ _. visit env store n (suc k) (shared 3) now)
            else (ok tt, w))
          late
      ∙ ap (λ r. continue r (λ _. visit env store n (suc k) (shared 3) now)) ran_it

index_of_first : (j : Job) (js : List Job) → index_of j.id (j ∷ js) ≡ some 0
unfolding index_of
index_of_first j js = rw (eq_refl j.id) refl

index_of_second :
    (j k : Job) (js : List Job) → (j.id == k.id) ≡ false → index_of k.id (j ∷ k ∷ js) ≡ some 1
unfolding index_of
index_of_second j k js h = rw (h, eq_refl k.id) refl

find_job_other : (j k : Job) → (j.id == k.id) ≡ false → find_job k.id (j ∷ []) ≡ none
unfolding find_job
find_job_other j k h = rw h refl

module _ (env : Env) (a b c : Job) (w : World MemoryStore) where
  -- Three jobs in the memory store, in the order of their next run times.
  abbrev pub three_jobs : World MemoryStore
  three_jobs = record w { store = record { array = a ∷ b ∷ c ∷ []; len = 3 } }

  abbrev woken : World MemoryStore
  woken = record three_jobs { timer = some fired; clock_reads = w.clock_reads + 1 }

  abbrev time : Time
  time = env.clock w.clock_reads

  -- The states after the turns of the loop.
  abbrev after_first : World MemoryStore
  after_first = record (started env time a woken) {
    store = record { array = b ∷ c ∷ c ∷ []; len = 2 };
  }

  abbrev after_second : World MemoryStore
  after_second = record (started env time c after_first) {
    store = record { array = b ∷ c ∷ c ∷ []; len = 1 };
  }

  abbrev after_third : World MemoryStore
  after_third = record (started env time c after_second) {
    events =
        (after_second.events ++ ran c ∷ [])
        ++ logged (delete_failed (full_name c) (job_not_found c.id)) ∷ [];
  }

  three_runs :
      (es : List Event)
      → ran_ids (
          (((es ++ ran a ∷ []) ++ ran c ∷ []) ++ ran c ∷ [])
          ++ logged (delete_failed (full_name c) (job_not_found c.id)) ∷ [])
        ≡ ran_ids es ++ a.id ∷ c.id ∷ c.id ∷ []
  unfolding ran_ids
  three_runs es = simp (ran_ids-append, append_assoc)

  three_turns :
      w.cluster_node ≡ none
      → IsPast env w.func_map time a
      → IsPast env w.func_map time c
      → (b.id == c.id) ≡ false
      → visit env (memory_store env.sort) 3 0 (shared 3) time woken ≡ (ok tt, after_third)
  unfolding element started shift_down visit
  three_turns standalone pa pc differ =
      past_turn env time a woken 2 0 after_first refl pa.late
        (past_step env time a woken 0 standalone pa (index_of_first a (b ∷ c ∷ [])))
      ∙ past_turn env time c after_first 1 1 after_second refl pc.late
          (past_step env time c after_first 1 standalone pc (index_of_second b c [] differ))
      ∙ past_turn env time c after_second 0 2 after_third refl pc.late
          (past_gone env time c after_second standalone pc (find_job_other b c differ))

  -- When the timer fires in standalone mode, over the memory store with three jobs that are in
  -- order, have the type "datetime", no queue, a registered function and a date that has passed,
  -- where the identifiers of the second and the third differ: the deletion of the first moves the
  -- second to a place that the loop has passed. The second job is not started, the third is
  -- started twice, and the second is the one that is left in the store.
  pub tick_skips_second :
      env.sort (a ∷ b ∷ c ∷ []) ≡ a ∷ b ∷ c ∷ []
      → w.cluster_node ≡ none
      → IsPast env w.func_map (env.clock w.clock_reads) a
      → IsPast env w.func_map (env.clock w.clock_reads) b
      → IsPast env w.func_map (env.clock w.clock_reads) c
      → b.id ≢ c.id
      → let r = tick env (memory_store env.sort) three_jobs in
        (r.0 ≡ ok tt)
        × (ran_ids r.1.events ≡ ran_ids w.events ++ a.id ∷ c.id ∷ c.id ∷ [])
        × (jobs r.1.store ≡ b ∷ [])
  unfolding tick round sort_slice elements Memory.get_all_jobs rearm Memory.get_next_run_time
      next_wakeup_interval started
  tick_skips_second sorted standalone pa pb pc differ =
      rw (sorted, three_turns standalone pa pc (ne→test b.id c.id differ))
        (refl, three_runs w.events, refl)
