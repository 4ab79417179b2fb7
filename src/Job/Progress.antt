-- ===== src/Job/Progress.antt =====
-- How far ahead of the clock `CalcNextRunTime` sets the next run of a job that repeats.
use agscheduler.Base.{ℕ, ◌+◌, ◌%◌, ◌≤◌, ◌<◌, ◌≡◌, ◌≢◌, refl, sym, ◌∙◌, arith, none, inr, ne→test}
use agscheduler.Base.Int.{pos}
use agscheduler.Result.{ok, ok-injective}
use agscheduler.Time.{
  Time, Duration, second, add_time, whole_seconds, whole_seconds_le, whole_seconds_gt,
}
use agscheduler.Env.{Env}
use agscheduler.Job.{Job, type_interval, status_paused}
use agscheduler.Job.Calc.{calc_next_run_time, next_by_type, next_interval}

module _ (env : Env) where
  -- The next run time of a job of the type "interval".
  calc_interval :
      (now : Time) (d : Duration) (j : Job)
      → env.load_location j.timezone ≡ none
      → j.status ≢ status_paused
      → env.to_lower j.type ≡ type_interval
      → env.parse_duration j.interval ≡ inr d
      → calc_next_run_time env now j ≡ ok (whole_seconds (add_time now d))
  unfolding calc_next_run_time
  calc_interval now d j loaded active kind interval =
      rw
        (
          loaded,
          ne→test j.status status_paused active,
          kind,
          interval,
          calc_next_run_time,
          next_by_type,
          next_interval,
        )
        refl

  -- For an active job of the type "interval" whose time zone loads and whose interval parses and
  -- is not negative, the next run time is at most the interval after the reading of the clock and
  -- less than a second short of that; so it lies after the reading if the interval is one second
  -- or more, and it does not if the interval ends within the same second.
  pub calc_interval_bounds :
      (now : Time) (d : ℕ) (t : Time) (j : Job)
      → env.load_location j.timezone ≡ none
      → j.status ≢ status_paused
      → env.to_lower j.type ≡ type_interval
      → env.parse_duration j.interval ≡ inr (pos d)
      → calc_next_run_time env now j ≡ ok t
      → (t ≤ now + d)
        × (now + d < t + second)
        × (second ≤ d → now < t)
        × (now % second + d < second → t ≤ now)
  unfolding add_time whole_seconds
  calc_interval_bounds now d t j loaded active kind interval computed =
      let is =
        ok-injective (sym (calc_interval now (pos d) j loaded active kind interval) ∙ computed) in
      (
        omega (arith, is, whole_seconds_le (now + d)),
        omega (arith, is, whole_seconds_gt (now + d)),
        λ long. omega (arith, is, whole_seconds_gt (now + d), long),
        λ short. omega (arith, is, short),
      )
