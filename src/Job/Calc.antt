-- ===== src/Job/Calc.antt =====
-- `CalcNextRunTime` of scheduler.go. The reading of the clock is an argument.
use agscheduler.Base.{String, none, some, inl, inr, if◌then◌else◌, ◌==◌}
use agscheduler.Errors.{bad_timezone, bad_start_at, bad_interval, unknown_type, bad_cron}
use agscheduler.Result.{Result, ok, err, panic, ◌>>=◌}
use agscheduler.Time.{Time, zero_time, add_time, whole_seconds}
use agscheduler.Env.{Env}
use agscheduler.Job.{Job, full_name, type_datetime, type_interval, type_cron, status_paused}

-- The date that a paused job waits for.
abbrev pub paused_date : String
paused_date = "9999-09-09 09:09:09"

module _ (env : Env) where
  open env use {load_location, parse_date, parse_duration, cron_next, to_lower}

  -- The error of this `ParseInLocation` is dropped; the time is then `time.Time{}`.
  unfoldable pub paused_time : (location : String) → Time
  paused_time location = elim (parse_date paused_date location) [ inl e ↦ zero_time | inr t ↦ t ]

  unfoldable pub next_datetime : Job → Result Time
  next_datetime j = elim (parse_date j.start_at j.timezone) [
    | inl e ↦ err (bad_start_at (full_name j) j.timezone e)
    | inr t ↦ ok t
  ]

  unfoldable pub next_interval : Time → Job → Result Time
  next_interval now j = elim (parse_duration j.interval) [
    | inl e ↦ err (bad_interval (full_name j) j.interval e)
    | inr i ↦ ok (add_time now i)
  ]

  unfoldable pub next_cron : Time → Job → Result Time
  next_cron now j = elim (cron_next j.cron_expr j.timezone now) [
    | none ↦ panic bad_cron
    | some t ↦ ok t
  ]

  -- The `switch` on the type.
  unfoldable pub next_by_type : Time → Job → Result Time
  unfolding next_datetime next_interval next_cron
  next_by_type now j =
      let kind = to_lower j.type in
      if kind == type_datetime
      then next_datetime j
      else if kind == type_interval
      then next_interval now j
      else if kind == type_cron
      then next_cron now j
      else err (unknown_type (full_name j) j.type)

  unfoldable pub calc_next_run_time : Time → Job → Result Time
  unfolding paused_time next_by_type
  calc_next_run_time now j = elim (load_location j.timezone) [
    | some e ↦ err (bad_timezone (full_name j) j.timezone e)
    | none ↦
        if j.status == status_paused
        then ok (whole_seconds (paused_time j.timezone))
        else (do t ← next_by_type now j; ok (whole_seconds t))
  ]
