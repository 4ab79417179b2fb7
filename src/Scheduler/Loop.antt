-- ===== src/Scheduler/Loop.antt =====
-- `run` of scheduler.go: what the goroutine does when the timer fires and when it is told to quit.
use agscheduler.Base.{ℕ, zero, suc, ◌-◌, none, some, [], ◌∷◌, length, if◌then◌else◌}
use agscheduler.Result.{Result, ok, err, panic}
use agscheduler.Exec.{Exec, gets, stop, modify, ◌>>=◌, ◌>>◌}
use agscheduler.Time.{Time, before}
use agscheduler.Job.{Job}
use agscheduler.Job.Calc.{calc_next_run_time}
use agscheduler.Env.{Env}
use agscheduler.Store.{Store, Slice, elements, element, sort_slice}
use agscheduler.Scheduler.{
  World, logged, armed, fired, emit, read_clock, stop_running, next_wakeup_interval,
}
use agscheduler.Scheduler.Run.{schedule, flush_job}

module _ {S : Type 0} where
  -- `if err != nil { slog.Error(…) }`, with which the loop goes on.
  unfoldable pub log_err : Result (Unit {0}) × World S → Result (Unit {0}) × World S
  unfolding emit
  log_err (ok u, w) = (ok tt, w)
  log_err (err e, w) = emit (logged e) w
  log_err (panic p, w) = (panic p, w)

  -- `case <-s.quitChan`
  unfoldable pub quit : World S → World S
  quit w = record w { quits = w.quits - 1; loops = w.loops - 1 }

module _ (env : Env) {S : Type 0} (store : Store S) where
  -- The body of the loop behind `CalcNextRunTime`, whose result is an argument.
  unfoldable pub run_at : Time → Job → Result Time → Exec (World S) Unit
  unfolding log_err
  run_at now j (ok next) = do
    let timed = record j { next_run_time = next }
    (λ w. log_err (schedule env timed w))
    (λ w. log_err (flush_job env store timed now w))
  run_at now j (err e) = emit (logged e)
  run_at now j (panic p) = stop p

  -- The body of the loop over the jobs for one that is due; `now` is when the round began.
  unfoldable pub run_due : Time → Job → Exec (World S) Unit
  unfolding run_at read_clock
  run_due now j = do reading ← read_clock env; run_at now j (calc_next_run_time env reading j)

  -- The loop from index `k` on, with `rounds` elements left; it ends at the first that is not due.
  unfoldable pub visit : (rounds k : ℕ) → Slice → Time → Exec (World S) Unit
  visit zero k js now w = (ok tt, w)
  visit (suc rounds) k js now w = elim (element store js k w.store) [
    | none ↦ (ok tt, w)
    | some j ↦
        if before j.next_run_time now
        then (do run_due now j; visit rounds (suc k) js now) w
        else (ok tt, w)
  ]

  -- `s.timer.Reset(nextWakeupInterval)`
  unfoldable pub rearm : Exec (World S) Unit
  rearm = do
    interval ← next_wakeup_interval env store
    modify (λ w. record w { timer = some (armed interval) })

  -- The jobs are sorted and visited, and the timer is set again.
  unfoldable pub round : Time → Slice → Exec (World S) Unit
  unfolding visit rearm
  round now js w =
      let (sorted, s) = sort_slice store env.sort js w.store in
      (do visit (length (elements store sorted s)) 0 sorted now; rearm) (record w { store = s })

  -- `case <-s.timer.C`
  unfoldable pub tick : Exec (World S) Unit
  unfolding round stop_running emit read_clock
  tick = do
    modify (λ w. record w { timer = some fired })
    now ← read_clock env
    found ← gets (λ w. store.get_all_jobs w.store)
    elim found [
      | err e ↦ emit (logged e)
      | panic p ↦ stop p
      | ok js ↦
          λ w. elim (elements store js w.store) [ [] ↦ stop_running w | j ∷ rest ↦ round now js w ]
    ]
