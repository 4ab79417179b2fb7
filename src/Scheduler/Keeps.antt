-- ===== src/Scheduler/Keeps.antt =====
-- What a property of the store needs to hold after a call of the scheduler: the rules for the parts
-- that calls are made of, and the calls that do not touch the store.
pub mod Operations
pub mod Rounds
pub mod Always
use agscheduler.Base.{
  ℕ, zero, suc, ◌+◌, String, ◌≡◌, refl, sym, ap, ◌∙◌, Bool, true, false, Option, none, some, List,
  [], ◌∷◌, ◌⊎◌, inl, inr, if◌then◌else◌, ◌==◌, Option-cases, Bool-cases, ltb, length, subst,
}
use agscheduler.Errors.{Error, Panic}
use agscheduler.Result.{Result, ok, err, panic}
use agscheduler.Exec.{continue}
use agscheduler.Time.{Time, before}
use agscheduler.Job.{Job, full_name, type_datetime}
use agscheduler.Job.Calc.{calc_next_run_time}
use agscheduler.Job.Init as JobInit
use agscheduler.Job.Print.{next_run_time_with_timezone}
use agscheduler.Env.{Env}
use agscheduler.Store.{Store, Slice, elements, element, sort_slice}
use agscheduler.Cluster.{Node, ClusterNode, choice_node}
use agscheduler.Store.Contract.{IsLawful}
use agscheduler.Scheduler.{
  World, add_job, update_job, delete_job, delete_all_jobs, pause_job, resume_job, get_job, start,
  stop_running, next_wakeup_interval, wakeup,
}
use agscheduler.Scheduler.Calls.{
  Input, adding, getting, updating, deleting, deleting_all, pausing, resuming, running, scheduling,
  starting, stopping, ticking, quitting, after_call, Admits,
}
use agscheduler.Scheduler.Run.{
  map_err, is_callable, run_func, run_job, run_queued, run_local, place, schedule_in, schedule,
  schedule_job, flush_job, serves_queue, remote_node,
}
use agscheduler.Scheduler.Loop.{log_err, run_at, run_due, visit, rearm, round, tick, quit}
use agscheduler.Scheduler.Jobs.{
  done_pair, next_wakeup_ok, update_job_rejected, update_job_refused, missing_job_unchanged,
  delete_job_run,
}
use agscheduler.Scheduler.Quiet.Calls.{check_cases}

pub result_cases :
    {A : Type 0} (r : Result A)
    → ((a : A) × (r ≡ ok a)) ⊎ (((e : Error) × (r ≡ err e)) ⊎ ((p : Panic) × (r ≡ panic p)))
result_cases (ok a) = inl (a, refl)
result_cases (err e) = inr (inl (e, refl))
result_cases (panic p) = inr (inr (p, refl))

-- A property of the store and of the number of identifiers made so far, in a state.
abbrev pub At : {S : Type 0} → (S → ℕ → Type 0) → World S → Type 0
At P w = P w.store w.uuids

module _ {S : Type 0} (P : S → ℕ → Type 0) where
  pub continue_keeps :
      {A B : Type 0} (r : Result A × World S) (f : A → World S → Result B × World S)
      → At P r.1
      → ((a : A) (v : World S) → At P v → At P (f a v).1)
      → At P (continue r f).1
  continue_keeps (ok a, v) f h k = k a v h
  continue_keeps (err e, v) f h k = h
  continue_keeps (panic p, v) f h k = h

  pub if_keeps :
      {A : Type 0} (b : Bool) (m n : World S → Result A × World S) (w : World S)
      → At P (m w).1
      → At P (n w).1
      → At P ((if b then m else n) w).1
  if_keeps true m n w hm hn = hm
  if_keeps false m n w hm hn = hn

  pub pick_keeps :
      {A : Type 0} (b : Bool) (r q : Result A × World S)
      → At P r.1
      → At P q.1
      → At P (if b then r else q).1
  pick_keeps true r q hr hq = hr
  pick_keeps false r q hr hq = hq

  pub map_err_keeps :
      {A : Type 0} (f : Error → Error) (r : Result A × World S) → At P r.1 → At P (map_err f r).1
  unfolding map_err
  map_err_keeps f (ok a, v) h = h
  map_err_keeps f (err e, v) h = h
  map_err_keeps f (panic p, v) h = h

  pub log_err_keeps : (r : Result (Unit {0}) × World S) → At P r.1 → At P (log_err r).1
  unfolding log_err
  log_err_keeps (ok u, v) h = h
  log_err_keeps (err e, v) h = h
  log_err_keeps (panic p, v) h = h

  pub start_keeps : (w : World S) → At P w → At P (start w).1
  unfolding start
  start_keeps w h = pick_keeps w.is_running _ _ h h

  pub stop_keeps : (w : World S) → At P w → At P (stop_running w).1
  unfolding stop_running
  stop_keeps w h = pick_keeps w.is_running _ _ h h

  pub wakeup_keeps : (w : World S) → At P w → At P (wakeup w).1
  unfolding wakeup
  wakeup_keeps w h = elim (Option-cases w.timer) [ inl e ↦ rw e h | inr (t, e) ↦ rw e h ]

  -- What starts a job or sends it away does not touch the store.
  module _ (env : Env) where
    pub run_func_keeps : (j : Job) (w : World S) → At P w → At P (run_func env j w).1
    unfolding run_func
    run_func_keeps j w h =
        pick_keeps (is_callable w.func_map j.func_name) _ _
          (continue_keeps (next_run_time_with_timezone env j, w) _ h (λ t v hv. hv)) h

    pub run_queued_keeps :
        (qs : List String) (j : Job) (w : World S) → At P w → At P (run_queued env qs j w).1
    unfolding run_queued
    run_queued_keeps [] j w h = run_func_keeps j w h
    run_queued_keeps (q ∷ qs) j w h =
        continue_keeps (serves_queue (q ∷ qs) w.cluster_node, w) _ h
          (λ served v hv. if_keeps served _ _ v (run_func_keeps j v hv) hv)

    pub place_keeps :
        (j : Job) (node : Option Node) (w : World S) → At P w → At P (place env j node w).1
    unfolding place run_local
    place_keeps j none w h = run_queued_keeps j.queues j w h
    place_keeps j (some node) w h = h

    pub schedule_in_keeps :
        (cn : ClusterNode) (j : Job) (w : World S) → At P w → At P (schedule_in env cn j w).1
    unfolding schedule_in
    schedule_in_keeps cn j w h =
        continue_keeps
          (
            remote_node cn (choice_node (env.draw w.draws) j.queues cn),
            record w { draws = w.draws + 1 },
          )
          _ h (λ target v hv. place_keeps j target v hv)

    pub schedule_keeps : (j : Job) (w : World S) → At P w → At P (schedule env j w).1
    unfolding schedule run_local
    schedule_keeps j w h =
        elim w.cluster_node
          as (λ o.
            let r : Result (Unit {0}) × World S = elim o [
              | none ↦ run_local env j w
              | some cn ↦ schedule_in env cn j w
            ] in
            At P r.1) [
              | none ↦ run_queued_keeps j.queues j w h
              | some cn ↦ schedule_in_keeps cn j w h
            ]
