-- ===== src/Tests/Jobs.antt =====
-- Operations of the scheduler on two jobs.
use agscheduler.Base.{
  some≢none, ◌*◌, ◌+◌, ◌%◌, ◌≤◌, ◌<◌, String, ◌≡◌, refl, true, some, if◌then◌else◌, ◌==◌, Option,
  test→ne,
}
use agscheduler.Base.Dict.{lookup}
use agscheduler.Errors.{job_not_found, func_unregistered}
use agscheduler.Result.{ok, err}
use agscheduler.Time.{second, whole_seconds, add_time}
use agscheduler.Job.{Job, zero_job}
use agscheduler.Job.Calc.{calc_next_run_time}
use agscheduler.Job.Init as JobInit
use agscheduler.Job.Progress.{calc_interval_bounds}
use agscheduler.Job.Ready.{IsReady, init-IsReady}
use agscheduler.Store.Memory.{find_job}
use agscheduler.Store.Memory.Refines.{IsWellFormed, view}
use agscheduler.Scheduler.{add_job, get_job, update_job, delete_job, pause_job, resume_job}
use agscheduler.Scheduler.Run.{flush_job}
use agscheduler.Scheduler.Jobs.{SameRest, update_job_ok, add_job_ok, missing_job_unchanged}
use agscheduler.Scheduler.Modes.{flush_keeps_late}
use agscheduler.Tests.Samples.{env, every_minute, once, idle, running}
use agscheduler.Tests.Stores.{
  two_jobs, two_jobs-IsWellFormed, copying_store, copying_store-IsLawful,
}

-- A job as a user hands it in, and as it is stored.
abbrev pub request : Job
request = record zero_job { name = "n"; type = "interval"; interval = "60s"; func_name = "main.f" }

abbrev pub accepted : Job
accepted = record request {
  id = "0123456789abcdef";
  status = "running";
  timezone = "UTC";
  timeout = "1h";
  next_run_time = 160 * second;
}

pub request_passes :
    JobInit.init env
      (running two_jobs).func_map
      "01234567-89ab-cdef-0123-456789abcdef"
      (100 * second)
      request
    ≡ ok accepted
unfolding JobInit.init calc_next_run_time JobInit.check whole_seconds add_time lookup
request_passes = refl

init-IsReady_example : IsReady env (running two_jobs).func_map (100 * second) accepted
init-IsReady_example =
    init-IsReady env (running two_jobs).func_map "01234567-89ab-cdef-0123-456789abcdef"
      (100 * second) request accepted request_passes

-- The stored jobs, through the contract.
two_view : String → Option Job
two_view = view two_jobs

every_minute_due : calc_next_run_time env (100 * second) every_minute ≡ ok (160 * second)
unfolding calc_next_run_time whole_seconds add_time
every_minute_due = refl

calc_interval_bounds_example :
    (160 * second ≤ 100 * second + 60 * second)
    × (100 * second + 60 * second < 160 * second + second)
    × (second ≤ 60 * second → 100 * second < 160 * second)
    × ((100 * second) % second + 60 * second < second → 160 * second ≤ 100 * second)
calc_interval_bounds_example =
    calc_interval_bounds env (100 * second) (60 * second) (160 * second) every_minute refl
      (test→ne "running" "paused" refl) refl refl every_minute_due

update_job_ok_example :
    let r = update_job env copying_store every_minute (running two_jobs) in
    let timed = record every_minute { next_run_time = 160 * second } in
    (r.0 ≡ ok timed)
    × IsWellFormed r.1.store
    × ((i : String) → view r.1.store i ≡ (if "m" == i then some timed else view two_jobs i))
    × SameRest (running two_jobs) r.1
unfolding find_job JobInit.check lookup
update_job_ok_example =
    update_job_ok env copying_store-IsLawful (running two_jobs) every_minute every_minute
      (record every_minute { next_run_time = 160 * second }) (160 * second) two_jobs-IsWellFormed
      refl refl every_minute_due some≢none refl

add_job_ok_example :
    let r = add_job env copying_store request (idle two_jobs) in
    (r.0 ≡ ok accepted)
    × IsWellFormed r.1.store
    × ((i : String)
        → view r.1.store i ≡ (if "0123456789abcdef" == i then some accepted else view two_jobs i))
    × (r.1.is_running ≡ true)
    × (r.1.loops ≡ 1)
unfolding find_job
add_job_ok_example =
    add_job_ok env copying_store-IsLawful (idle two_jobs) request accepted accepted
      two_jobs-IsWellFormed request_passes refl refl

missing_job_unchanged_example :
    let w = running two_jobs in
    (get_job env copying_store "b" w ≡ (err (job_not_found "b"), w))
    × (update_job env copying_store (once "b") w ≡ (err (job_not_found "b"), w))
    × (delete_job env copying_store "b" w ≡ (err (job_not_found "b"), w))
    × (pause_job env copying_store "b" w ≡ (err (job_not_found "b"), w))
    × (resume_job env copying_store "b" w ≡ (err (job_not_found "b"), w))
unfolding find_job
missing_job_unchanged_example =
    missing_job_unchanged env copying_store-IsLawful (running two_jobs) (once "b")
      two_jobs-IsWellFormed refl

-- A job without a function that is registered.
abbrev nameless : Job
nameless = record request { func_name = "main.g" }

nameless_rejected :
    JobInit.init env
      (idle two_jobs).func_map
      "01234567-89ab-cdef-0123-456789abcdef"
      (100 * second)
      nameless
    ≡ err (func_unregistered "main.g")
unfolding JobInit.init calc_next_run_time JobInit.check whole_seconds add_time lookup
nameless_rejected = refl

-- The job "a", with its type in other letters.
abbrev spelt : Job
spelt = record (once "a") { type = "DateTime" }

flush_keeps_late_example :
    let r = flush_job env copying_store spelt (100 * second) (running two_jobs) in
    (r.0 ≡ ok tt)
    × (view r.1.store "a"
        ≡ some (record spelt { last_run_time = 100 * second; next_run_time = 50 * second }))
unfolding find_job JobInit.check lookup whole_seconds
flush_keeps_late_example =
    flush_keeps_late env copying_store-IsLawful (running two_jobs) spelt (once "a") (100 * second)
      two_jobs-IsWellFormed refl (50 * second)
      (record spelt { last_run_time = 100 * second; next_run_time = 50 * second })
      (test→ne "DateTime" "datetime" refl) refl refl (test→ne "running" "paused" refl) refl refl
      some≢none refl
