-- ===== src/Scheduler/Unstarted.antt =====
-- An update before the first `Start`, when the scheduler has no timer yet.
use agscheduler.Base.{String, ◌+◌, ◌<◌, ◌≡◌, refl, none, some, Option, if◌then◌else◌, ◌==◌, lt→ltb}
use agscheduler.Errors.{nil_timer}
use agscheduler.Result.{ok, panic}
use agscheduler.Time.{Time, sub_time}
use agscheduler.Job.{Job}
use agscheduler.Job.Calc.{calc_next_run_time}
use agscheduler.Job.Init as JobInit
use agscheduler.Env.{Env}
use agscheduler.Store.{Store}
use agscheduler.Store.Contract.{IsLawful}
use agscheduler.Scheduler.{World, interval_of, next_wakeup_interval, update_job}
use agscheduler.Scheduler.Jobs.{done_pair}

module _ (env : Env) {S : Type 0} (store : Store S) where
  next_wakeup_at :
      (w : World S) (t : Time)
      → store.get_next_run_time w.store ≡ ok t
      → next_wakeup_interval env store w ≡ (
        ok (interval_of (sub_time t (env.clock w.clock_reads))),
        record w { clock_reads = w.clock_reads + 1 },
      )
  unfolding next_wakeup_interval
  next_wakeup_at w t e = rw e refl

module _ (env : Env) {S : Type 0} {store : Store S} {Inv : S → Type 0}
    {view : S → String → Option Job} {kept : Job → Option Job}
    (lawful : IsLawful Inv view kept store) (w : World S) (j x k : Job) (next t t' : Time) where
  -- Over a lawful store in its invariant, for a scheduler that has no timer yet and a stored job
  -- that passes `check`, has a next run time and can be kept by the store: if the update makes the
  -- scheduler wake up earlier than it would have, `UpdateJob` panics with a nil pointer; by then
  -- what the store keeps of the job is stored, and no other job has changed.
  pub update_job_unstarted :
      Inv w.store
      → view w.store j.id ≡ some x
      → JobInit.check env w.func_map j ≡ ok tt
      → calc_next_run_time env (env.clock w.clock_reads) j ≡ ok next
      → w.timer ≡ none
      → kept (record j { next_run_time = next }) ≡ some k
      → store.get_next_run_time w.store ≡ ok t
      → store.get_next_run_time (store.update_job (record j { next_run_time = next }) w.store).1
        ≡ ok t'
      → interval_of (sub_time t' (env.clock (w.clock_reads + 1 + 1)))
        < interval_of (sub_time t (env.clock (w.clock_reads + 1)))
      → let r = update_job env store j w in
        (r.0 ≡ panic nil_timer)
        × ((i : String) → view r.1.store i ≡ (if j.id == i then some k else view w.store i))
  unfolding update_job
  update_job_unstarted stored found checked calc unset keep before_it after_it earlier =
      let timed = record j { next_run_time = next } in
      let change = lawful.map_laws.update w.store timed x k stored found keep in
      let read : World S = record w { clock_reads = w.clock_reads + 1 } in
      let after : World S = record w {
        store = (store.update_job timed w.store).1;
        clock_reads = w.clock_reads + 1 + 1;
      } in
      rw
        (
          lawful.map_laws.get w.store j.id stored,
          found,
          checked,
          calc,
          next_wakeup_at env store read t before_it,
          done_pair (store.update_job timed w.store) change.done,
          next_wakeup_at env store after t' after_it,
          lt→ltb _ _ earlier,
          unset,
        )
        (refl, change.views)
