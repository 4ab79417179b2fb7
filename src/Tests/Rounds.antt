-- ===== src/Tests/Rounds.antt =====
-- The goroutine of the scheduler, started, stopped and woken.
use agscheduler.Base.{
  ℕ, ◌+◌, ◌*◌, ◌≤◌, String, ◌≡◌, refl, some, [], ◌∷◌, if◌then◌else◌, ◌==◌, test→ne, arith,
}
use agscheduler.Errors.{nil_timer}
use agscheduler.Result.{ok, panic}
use agscheduler.Time.{second, sub_time, whole_seconds, add_time}
use agscheduler.Job.{Job}
use agscheduler.Job.Calc.{calc_next_run_time}
use agscheduler.Job.Init as JobInit
use agscheduler.Base.Dict.{lookup}
use agscheduler.Store.Memory.{
  MemoryStore, jobs, memory_store, find_job, get_next_run_time, update_job as memory_update,
}
use agscheduler.Store.Memory.Refines.{IsWellFormed, view}
use agscheduler.Scheduler.{armed, start, stop_running, interval_of, update_job}
use agscheduler.Scheduler.Run.{is_callable}
use agscheduler.Scheduler.Loop.{tick, quit}
use agscheduler.Scheduler.Quiet.{ran_ids, IsRunnable}
use agscheduler.Scheduler.Rounds.{due_prefix}
use agscheduler.Scheduler.Ticks.{tick_starts_due}
use agscheduler.Scheduler.Aliasing.{IsPast, three_jobs, tick_skips_second}
use agscheduler.Scheduler.Unstarted.{update_job_unstarted}
use agscheduler.Scheduler.Lifecycle.{
  IsBalanced, starting, stopping, quitting, here, next, Reach-IsBalanced,
}
use agscheduler.Scheduler.Calling.{
  begin, finish, expire, panicked, finishing, expiring, begun, after,
}
use agscheduler.Base.{length, none, All}
use agscheduler.Base.Int.{pos}
use agscheduler.Scheduler.Notify.{EmailConfig, mails, IsAddressed, mails_at_most_two}
use agscheduler.Tests.Samples.{env, funcs, every_minute, once, idle, running, sorted}
use agscheduler.Tests.Stores.{
  two_jobs, two_jobs-IsWellFormed, copying_store, copying_store-IsLawful,
}

pub once-IsRunnable : (i : String) → IsRunnable env funcs (once i)
unfolding is_callable calc_next_run_time lookup whole_seconds
once-IsRunnable i = record { unqueued = refl; callable = refl; timed = λ now. (50 * second, refl) }

pub every_minute-IsRunnable : IsRunnable env funcs every_minute
unfolding is_callable calc_next_run_time add_time lookup
every_minute-IsRunnable = record {
  unqueued = refl;
  callable = refl;
  timed = λ now. (whole_seconds (now + 60 * second), refl);
}

tick_starts_due_example :
    let r = tick env copying_store (running two_jobs) in
    (r.0 ≡ ok tt)
    × (ran_ids r.1.events ≡ "a" ∷ "m" ∷ [])
    × ((d : ℕ) × (r.1.timer ≡ some (armed d)))
    × IsWellFormed r.1.store
unfolding ran_ids due_prefix sorted
tick_starts_due_example =
    tick_starts_due env copying_store-IsLawful (running two_jobs) (once "a") (every_minute ∷ [])
      two_jobs-IsWellFormed refl refl (once-IsRunnable "a", (every_minute-IsRunnable, tt))

once-IsPast : (i : String) → IsPast env funcs (100 * second) (once i)
unfolding is_callable calc_next_run_time lookup whole_seconds
once-IsPast i = record {
  kind = refl;
  unqueued = refl;
  callable = refl;
  dated = λ at. refl;
  late = refl;
}

tick_skips_second_example :
    let w = three_jobs env (once "a") (once "b") (once "c") (running two_jobs) in
    let r = tick env (memory_store env.sort) w in
    (r.0 ≡ ok tt) × (ran_ids r.1.events ≡ "a" ∷ "c" ∷ "c" ∷ []) × (jobs r.1.store ≡ once "b" ∷ [])
unfolding ran_ids sorted
tick_skips_second_example =
    tick_skips_second env (once "a") (once "b") (once "c") (running two_jobs) refl refl
      (once-IsPast "a") (once-IsPast "b") (once-IsPast "c") (test→ne "b" "c" refl)

idle-IsBalanced : IsBalanced (idle two_jobs)
idle-IsBalanced = record { balance = refl; single = omega arith }

-- Started, stopped, and the message read.
Reach-IsBalanced_example : IsBalanced (quit (stop_running (start (idle two_jobs)).1).1)
unfolding start stop_running
Reach-IsBalanced_example =
    Reach-IsBalanced
      (next (next (next here (starting (idle two_jobs) refl)) (stopping (start (idle two_jobs)).1))
        (quitting (stop_running (start (idle two_jobs)).1).1 (omega arith)))
      idle-IsBalanced

-- A job that is due long after second 100.
abbrev later_job : Job
later_job = record (once "a") { next_run_time = 9000 * second }

abbrev later_jobs : MemoryStore
later_jobs = record { array = later_job ∷ []; len = 1 }

later_jobs-IsWellFormed : IsWellFormed later_jobs
unfolding find_job
later_jobs-IsWellFormed = record { valid = record { fits = omega arith }; distinct = (refl, tt) }

-- The job is due every minute from now on.
abbrev sooner_job : Job
sooner_job = record every_minute { id = "a" }

sooner_job_due : calc_next_run_time env (100 * second) sooner_job ≡ ok (160 * second)
unfolding calc_next_run_time whole_seconds add_time
sooner_job_due = refl

update_job_unstarted_example :
    let r = update_job env copying_store sooner_job (idle later_jobs) in
    let timed = record sooner_job { next_run_time = 160 * second } in
    (r.0 ≡ panic nil_timer)
    × ((i : String) → view r.1.store i ≡ (if "a" == i then some timed else view later_jobs i))
unfolding find_job JobInit.check lookup get_next_run_time memory_update interval_of sub_time sorted
update_job_unstarted_example =
    update_job_unstarted env copying_store-IsLawful (idle later_jobs) sooner_job later_job
      (record sooner_job { next_run_time = 160 * second }) (160 * second) (9000 * second)
      (160 * second) later_jobs-IsWellFormed refl refl sooner_job_due refl refl refl refl
      (omega arith)

abbrev office : EmailConfig
office = record {
  smtp_server = "smtp.example.org";
  port = pos 587;
  username = "u";
  password = "p";
  sender = "jobs@example.org";
  recipients = "ann@example.org" ∷ "bob@example.org" ∷ [];
}

-- The function of the job panics, and the timeout is seen before the closed channel.
mails_at_most_two_example :
    let c = expire (finish every_minute (panicked "nil") (begin env every_minute)) in
    let sent = mails (λ n. "587") (some office) every_minute c.reports in
    (length sent ≤ 2)
    × All (IsAddressed (λ n. "587") office every_minute) sent
    × (mails (λ n. "587") none every_minute c.reports ≡ [])
unfolding begin finish expire mails
mails_at_most_two_example =
    mails_at_most_two env (λ n. "587") office every_minute
      (expire (finish every_minute (panicked "nil") (begin env every_minute)))
      (after (after begun (finishing (panicked "nil") (begin env every_minute) refl))
        (expiring (finish every_minute (panicked "nil") (begin env every_minute)) refl))
