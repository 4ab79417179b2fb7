-- ===== src/Tests/Ticks.antt =====
-- Rounds over a sorted list and over the array of the store, and a job paused and resumed.
use agscheduler.Base.{
  Bool-cases, some_inj, subst, sym, ◌∙◌, inl, inr, map, ℕ, ◌+◌, ◌*◌, ◌≤◌, String, ◌≡◌, refl, ◌⊎◌,
  some, some≢none, List, [], ◌∷◌, arith, if◌then◌else◌, ◌==◌, test→ne,
}
use agscheduler.Base.Dict.{lookup}
use agscheduler.Result.{ok}
use agscheduler.Time.{second, sub_time, add_time, whole_seconds}
use agscheduler.Job.{Job, status_running}
use agscheduler.Job.Calc.{calc_next_run_time, paused_time}
use agscheduler.Job.Init as JobInit
use agscheduler.Store.Memory as Memory
use agscheduler.Store.Memory.{MemoryStore, find_job, memory_store}
use agscheduler.Store.Memory.Refines.{IsWellFormed, view}
use agscheduler.Scheduler.{armed, pause_job, resume_job}
use agscheduler.Scheduler.Run.{is_callable}
use agscheduler.Scheduler.Loop.{tick, rearm}
use agscheduler.Scheduler.Pause.{pause_then_resume}
use agscheduler.Scheduler.Quiet.{ran_ids, IsRunnable}
use agscheduler.Scheduler.Rounds.{due_prefix}
use agscheduler.Scheduler.Promptness.{rearm_in_time}
use agscheduler.Scheduler.Complete.{IsDueIn, tick_starts_stored}
use agscheduler.Scheduler.InPlace.{IsRepeating, tick_in_place}
use agscheduler.Tests.Samples.{env, funcs, every_minute, running, sorted}
use agscheduler.Tests.Sorting.{sorted-IsSorting}
use agscheduler.Tests.Rounds.{once-IsRunnable, every_minute-IsRunnable}
use agscheduler.Tests.Stores.{
  copying_store-IsListing, two_jobs, two_jobs-IsWellFormed, copying_store, copying_store-IsLawful,
}

-- The two jobs can both be run.
two_jobs_run : (i : String) (j : Job) → view two_jobs i ≡ some j → IsRunnable env funcs j
unfolding find_job
two_jobs_run i j found = elim (Bool-cases ("a" == i)) [
  | inl first ↦
      subst (IsRunnable env funcs) (some_inj (sym (rw first refl) ∙ found)) (once-IsRunnable "a")
  | inr other ↦ elim (Bool-cases ("m" == i)) [
    | inl second_one ↦
        subst (IsRunnable env funcs) (some_inj (sym (rw (other, second_one) refl) ∙ found))
          every_minute-IsRunnable
    | inr neither ↦ absurd (some≢none (sym found ∙ rw (other, neither) refl))
  ]
]

tick_starts_stored_example :
    let r = tick env copying_store (running two_jobs) in
    (due : List Job) × IsDueIn (100 * second) (view two_jobs) due
    × (ran_ids r.1.events ≡ map (λ j. j.id) due)
    × (r.0 ≡ ok tt)
    × IsWellFormed r.1.store
unfolding ran_ids
tick_starts_stored_example =
    tick_starts_stored env copying_store-IsLawful copying_store-IsListing (running two_jobs)
      sorted-IsSorting two_jobs-IsWellFormed refl (λ i j found due. two_jobs_run i j found)

rearm_in_time_example :
    (d : ℕ) × (rearm env copying_store (running two_jobs)
      ≡ (ok tt, record (running two_jobs) { clock_reads = 1; timer = some (armed d) }))
    × ((d ≤ second) ⊎ (100 * second + d ≤ 90 * second))
unfolding find_job
rearm_in_time_example =
    rearm_in_time env copying_store-IsLawful (running two_jobs) "m" every_minute
      two_jobs-IsWellFormed refl

-- Two jobs that run every minute.
abbrev minutely : String → Job
minutely i = record every_minute { id = i }

abbrev minutes : MemoryStore
minutes = record { array = minutely "a" ∷ minutely "b" ∷ []; len = 2 }

minutes-IsWellFormed : IsWellFormed minutes
unfolding find_job
minutes-IsWellFormed = record {
  valid = record { fits = omega arith };
  distinct = (refl, (refl, tt));
}

minutely-IsRepeating : (i : String) → IsRepeating env funcs (minutely i)
unfolding is_callable calc_next_run_time add_time lookup
minutely-IsRepeating i = record {
  runnable = record {
    unqueued = refl;
    callable = refl;
    timed = λ now. (whole_seconds (now + 60 * second), refl);
  };
  repeats = test→ne "interval" "datetime" refl;
}

tick_in_place_example :
    let r = tick env (memory_store sorted) (running minutes) in
    (r.0 ≡ ok tt)
    × (ran_ids r.1.events ≡ "a" ∷ "b" ∷ [])
    × ((d : ℕ) × (r.1.timer ≡ some (armed d)))
    × IsWellFormed r.1.store
unfolding ran_ids due_prefix sorted
tick_in_place_example =
    tick_in_place env (running minutes) (minutely "a") (minutely "b" ∷ []) sorted-IsSorting
      minutes-IsWellFormed refl refl (minutely-IsRepeating "a", (minutely-IsRepeating "b", tt))

pause_then_resume_example :
    let r =
      resume_job env copying_store "m" (pause_job env copying_store "m" (running two_jobs)).1 in
    let active = record every_minute { status = status_running; next_run_time = 163 * second } in
    (r.0 ≡ ok active)
    × IsWellFormed r.1.store
    × ((i : String) → view r.1.store i ≡ (if "m" == i then some active else view two_jobs i))
unfolding find_job JobInit.check lookup whole_seconds paused_time calc_next_run_time add_time
    pause_job Memory.get_job Memory.get_next_run_time Memory.update_job sub_time sorted
pause_then_resume_example =
    pause_then_resume env copying_store-IsLawful (running two_jobs) every_minute
      (record every_minute { status = status_running; next_run_time = 163 * second }) (163 * second)
      two_jobs-IsWellFormed refl refl refl some≢none refl refl refl

-- The job "m" is paused and resumed, the timer fires, all jobs are deleted, and the timer fires.
