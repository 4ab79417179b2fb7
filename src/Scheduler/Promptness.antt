-- ===== src/Scheduler/Promptness.antt =====
-- That `run` of scheduler.go does not oversleep.
use agscheduler.Base.{
  ℕ, ◌+◌, ◌≤◌, String, ◌≡◌, refl, ◌⊎◌, inl, inr, Option, some, arith, leb, Bool-cases,
}
use agscheduler.Result.{ok}
use agscheduler.Time.{Time, second, sub_time}
use agscheduler.Job.{Job}
use agscheduler.Env.{Env}
use agscheduler.Store.{Store}
use agscheduler.Store.Contract.{IsLawful}
use agscheduler.Scheduler.{World, armed, interval_of, next_wakeup_interval}
use agscheduler.Scheduler.Lifecycle.{interval_of-sub_time}
use agscheduler.Scheduler.Loop.{rearm}

module _ (env : Env) {S : Type 0} {store : Store S} {Inv : S → Type 0}
    {view : S → String → Option Job} {kept : Job → Option Job}
    (lawful : IsLawful Inv view kept store) where
  interval_in_time :
      (t now u : Time)
      → t ≤ u
      → (interval_of (sub_time t now) ≤ second) ⊎ (now + interval_of (sub_time t now) ≤ u)
  interval_in_time t now u h =
      let (bound, value) = interval_of-sub_time t now in
      elim (Bool-cases (leb now t)) [
        | inl future ↦ inr (ground (arith, value))
        | inr past ↦ inl (ground (arith, value))
      ]

  -- At the end of a round, over a lawful store in its invariant that holds a job, the timer is set
  -- to at most one second, or so that it fires no later than the next run time of that job;
  -- nothing else changes but the reading of the clock.
  pub rearm_in_time :
      (w : World S) (i : String) (x : Job)
      → Inv w.store
      → view w.store i ≡ some x
      → (d : ℕ) × (rearm env store w
          ≡ (ok tt, record w { clock_reads = w.clock_reads + 1; timer = some (armed d) }))
        × ((d ≤ second) ⊎ (env.clock w.clock_reads + d ≤ x.next_run_time))
  unfolding rearm next_wakeup_interval
  rearm_in_time w i x stored found =
      let (t, total) = lawful.next_total w.store stored in
      (
        interval_of (sub_time t (env.clock w.clock_reads)),
        rw total refl,
        interval_in_time t (env.clock w.clock_reads) x.next_run_time
            (lawful.next_least w.store t i x stored total found),
      )
