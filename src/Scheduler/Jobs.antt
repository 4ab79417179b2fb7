-- ===== src/Scheduler/Jobs.antt =====
-- The operations of scheduler.go on jobs, over any store that keeps its contract.
use agscheduler.Base.{
  some≢none, ℕ, ◌+◌, String, ◌≡◌, ◌≢◌, refl, ap, ◌∙◌, true, Option, none, some, inl, inr,
  if◌then◌else◌, ◌==◌, ltb, Option-cases, Bool-cases,
}
use agscheduler.Errors.{Error, job_not_found}
use agscheduler.Result.{Result, ok, err, panic, require}
use agscheduler.Time.{Time, sub_time}
use agscheduler.Job.{Job}
use agscheduler.Job.Calc.{calc_next_run_time}
use agscheduler.Job.Init as JobInit
use agscheduler.Job.Ready.{init_named}
use agscheduler.Env.{Env}
use agscheduler.Store.{Store}
use agscheduler.Store.Contract.{IsLawful}
use agscheduler.Scheduler.{
  World, interval_of, next_wakeup_interval, add_job, get_job, update_job, delete_job, pause_job,
  resume_job,
}

-- What a change of the store leaves alone; the timer stays there, but may be set anew.
pub record SameRest {S : Type 0} (w v : World S) : Type 0 where
  pub same_events : v.events ≡ w.events
  pub same_funcs : v.func_map ≡ w.func_map
  pub same_node : v.cluster_node ≡ w.cluster_node
  pub same_running : v.is_running ≡ w.is_running
  pub same_loops : v.loops ≡ w.loops
  pub same_quits : v.quits ≡ w.quits
  pub ticking : v.timer ≢ none

-- A call that succeeds, as an equation.
pub done_pair : {S A : Type 0} {a : A} (r : Result A × S) → r.0 ≡ ok a → r ≡ (ok a, r.1)
done_pair r h = λ i. (h i, r.1)

module _ (env : Env) {S : Type 0} {store : Store S} {Inv : S → Type 0}
    {view : S → String → Option Job} {kept : Job → Option Job}
    (lawful : IsLawful Inv view kept store) where
  pub next_wakeup_ok :
      (w : World S)
      → Inv w.store
      → (d : ℕ) × (next_wakeup_interval env store w
          ≡ (ok d, record w { clock_reads = w.clock_reads + 1 }))
  unfolding next_wakeup_interval
  next_wakeup_ok w v =
      let (t, e) = lawful.next_total w.store v in
      (interval_of (sub_time t (env.clock w.clock_reads)), rw e refl)

  -- What a successful update does, as an equation.
  pub update_job_run :
      (w : World S) (j x k : Job) (next : Time)
      → Inv w.store
      → view w.store j.id ≡ some x
      → JobInit.check env w.func_map j ≡ ok tt
      → calc_next_run_time env (env.clock w.clock_reads) j ≡ ok next
      → w.timer ≢ none
      → kept (record j { next_run_time = next }) ≡ some k
      → let timed = record j { next_run_time = next } in
        (v : World S) × (update_job env store j w ≡ (ok timed, v))
        × (v.store ≡ (store.update_job timed w.store).1)
        × SameRest w v
  unfolding update_job
  update_job_run w j x k next v found checked calc timer keep =
      let timed = record j { next_run_time = next } in
      let change = lawful.map_laws.update w.store timed x k v found keep in
      let after : World S = record w {
        store = (store.update_job timed w.store).1;
        clock_reads = w.clock_reads + 1 + 1;
      } in
      let (d, before_ok) = next_wakeup_ok (record w { clock_reads = w.clock_reads + 1 }) v in
      let (d', after_ok) = next_wakeup_ok after change.keeps in
      rw
        (
          lawful.map_laws.get w.store j.id v,
          found,
          checked,
          calc,
          before_ok,
          done_pair (store.update_job timed w.store) change.done,
          after_ok,
        )
        (elim (Option-cases w.timer) [
          | inl e ↦ absurd (timer e)
          | inr (t, e) ↦ elim (Bool-cases (ltb d' d)) [
            | inl b ↦
                rw (b, e)
                  (
                    _,
                    refl,
                    refl,
                    record {
                      same_events = refl;
                      same_funcs = refl;
                      same_node = refl;
                      same_running = refl;
                      same_loops = refl;
                      same_quits = refl;
                      ticking = some≢none;
                    },
                  )
            | inr b ↦ rw b (
              _,
              refl,
              refl,
              record {
                same_events = refl;
                same_funcs = refl;
                same_node = refl;
                same_running = refl;
                same_loops = refl;
                same_quits = refl;
                ticking = timer;
              },
            )
          ]
        ])

  -- Over a lawful store in its invariant, for a scheduler with a timer and a job that is stored,
  -- passes `check`, has a next run time and can be kept by the store: `UpdateJob` succeeds,
  -- returns the job with that time, leaves what the store keeps of it under its identifier and
  -- changes no other job, keeps the invariant of the store, and leaves the events, the functions,
  -- the node, the running state, the goroutines and the unread messages of the scheduler as they
  -- were, with a timer still there.
  pub update_job_ok :
      (w : World S) (j x k : Job) (next : Time)
      → Inv w.store
      → view w.store j.id ≡ some x
      → JobInit.check env w.func_map j ≡ ok tt
      → calc_next_run_time env (env.clock w.clock_reads) j ≡ ok next
      → w.timer ≢ none
      → kept (record j { next_run_time = next }) ≡ some k
      → let r = update_job env store j w in
        let timed = record j { next_run_time = next } in
        (r.0 ≡ ok timed)
        × Inv r.1.store
        × ((i : String) → view r.1.store i ≡ (if j.id == i then some k else view w.store i))
        × SameRest w r.1
  update_job_ok w j x k next v found checked calc timer keep =
      let timed = record j { next_run_time = next } in
      let change = lawful.map_laws.update w.store timed x k v found keep in
      let (after, run, at, rest) = update_job_run w j x k next v found checked calc timer keep in
      rw (run, at) (refl, change.keeps, change.views, rest)

  -- An update with a job that the store cannot keep ends with the error of the store, which stays
  -- as it was; only the clock was read.
  pub update_job_refused :
      (w : World S) (j x : Job) (next : Time)
      → Inv w.store
      → view w.store j.id ≡ some x
      → JobInit.check env w.func_map j ≡ ok tt
      → calc_next_run_time env (env.clock w.clock_reads) j ≡ ok next
      → kept (record j { next_run_time = next }) ≡ none
      → (e : Error) × (update_job env store j w
          ≡ (err e, record w { clock_reads = w.clock_reads + 1 + 1 }))
  unfolding update_job
  update_job_refused w j x next v found checked calc lost =
      let timed = record j { next_run_time = next } in
      let (e, refused) = lawful.map_laws.refuse w.store timed x v found lost in
      let (d, before_ok) = next_wakeup_ok (record w { clock_reads = w.clock_reads + 1 }) v in
      (e, rw (lawful.map_laws.get w.store j.id v, found, checked, calc, before_ok, refused) refl)

  -- An update of a stored job that `check` rejects changes nothing.
  pub update_job_rejected :
      (w : World S) (j x : Job) (e : Error)
      → Inv w.store
      → view w.store j.id ≡ some x
      → JobInit.check env w.func_map j ≡ err e
      → update_job env store j w ≡ (err e, w)
  unfolding update_job
  update_job_rejected w j x e v found bad = rw (lawful.map_laws.get w.store j.id v, found, bad) refl

  -- Over a lawful store in its invariant, a job that is not stored can be neither read, updated,
  -- deleted, paused nor resumed: each call of the scheduler reports that it was not found, and the
  -- scheduler stays as it was.
  pub missing_job_unchanged :
      (w : World S) (j : Job)
      → Inv w.store
      → view w.store j.id ≡ none
      → (get_job env store j.id w ≡ (err (job_not_found j.id), w))
        × (update_job env store j w ≡ (err (job_not_found j.id), w))
        × (delete_job env store j.id w ≡ (err (job_not_found j.id), w))
        × (pause_job env store j.id w ≡ (err (job_not_found j.id), w))
        × (resume_job env store j.id w ≡ (err (job_not_found j.id), w))
  unfolding get_job update_job delete_job pause_job resume_job
  missing_job_unchanged w j v absent =
      let gone : store.get_job j.id w.store ≡ err (job_not_found j.id) =
        lawful.map_laws.get w.store j.id v ∙ ap (require (job_not_found j.id)) absent in
      (rw gone refl, rw gone refl, rw gone refl, rw gone refl, rw gone refl)

  pub delete_job_run :
      (w : World S) (id : String) (x : Job)
      → Inv w.store
      → view w.store id ≡ some x
      → delete_job env store id w ≡ (ok tt, record w { store = (store.delete_job id w.store).1 })
  unfolding delete_job
  delete_job_run w id x v found =
      let change = lawful.map_laws.delete w.store id x v found in
      rw
        (
          lawful.map_laws.get w.store id v,
          found,
          done_pair (store.delete_job id w.store) change.done,
        )
        refl

  -- Over a lawful store in its invariant, `DeleteJob` of a stored job succeeds, removes that job
  -- and no other, and keeps the invariant of the store.
  delete_job_ok :
      (w : World S) (id : String) (x : Job)
      → Inv w.store
      → view w.store id ≡ some x
      → let r = delete_job env store id w in
        (r.0 ≡ ok tt)
        × Inv r.1.store
        × ((i : String) → view r.1.store i ≡ (if id == i then none else view w.store i))
  delete_job_ok w id x v found =
      let change = lawful.map_laws.delete w.store id x v found in
      rw (delete_job_run w id x v found) (refl, change.keeps, change.views)

  -- Over a lawful store in its invariant, for a job that `init` accepts under an identifier that
  -- is not stored, and that the store can keep: `AddJob` succeeds and returns the job that `init`
  -- made, leaves what the store keeps of it under its identifier and changes no other job, keeps
  -- the invariant of the store, and leaves the scheduler running, with one goroutine more exactly
  -- if it did not run before.
  pub add_job_ok :
      (w : World S) (j ready k : Job)
      → Inv w.store
      → JobInit.init env w.func_map (env.uuid w.uuids) (env.clock w.clock_reads) j ≡ ok ready
      → view w.store ready.id ≡ none
      → kept ready ≡ some k
      → let r = add_job env store j w in
        (r.0 ≡ ok ready)
        × Inv r.1.store
        × ((i : String) → view r.1.store i ≡ (if ready.id == i then some k else view w.store i))
        × (r.1.is_running ≡ true)
        × (r.1.loops ≡ (if w.is_running then w.loops else w.loops + 1))
  unfolding add_job
  add_job_ok w j ready k v accepted new keep =
      let change =
        lawful.map_laws.add w.store ready k v (init_named env _ _ _ j ready accepted) new keep in
      rw (accepted, done_pair (store.add_job ready w.store) change.done)
        (elim (Bool-cases w.is_running) [
          | inl e ↦ rw e (refl, change.keeps, change.views, refl, refl)
          | inr e ↦ rw e (refl, change.keeps, change.views, refl, refl)
        ])

  -- Over a lawful store, a job that `init` rejects is not stored by `AddJob`, which returns the
  -- error or panic of `init`, and the scheduler is not started.
  add_job_rejected :
      (w : World S) (j : Job)
      → (r : Result Job)
      → JobInit.init env w.func_map (env.uuid w.uuids) (env.clock w.clock_reads) j ≡ r
      → ((ready : Job) → r ≢ ok ready)
      → let out = add_job env store j w in
        (out.0 ≡ r) × (out.1.store ≡ w.store) × (out.1.is_running ≡ w.is_running)
  unfolding add_job
  add_job_rejected w j (ok x) h bad = absurd (bad x refl)
  add_job_rejected w j (err e) h bad = rw h (refl, refl, refl)
  add_job_rejected w j (panic p) h bad = rw h (refl, refl, refl)
