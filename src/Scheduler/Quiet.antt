-- ===== src/Scheduler/Quiet.antt =====
-- Calls that the loop makes without starting a job, and what a turn of the loop relies on.
pub mod Calls
use agscheduler.Base.{
  ℕ, String, ◌≡◌, ◌≢◌, refl, ap, ◌∙◌, sym, ◌⊎◌, inl, inr, Bool, true, false, Option, none, some,
  List, [], ◌∷◌, ◌++◌, append-nil, if◌then◌else◌, ◌==◌, Option-cases, Sum-cases,
}
use agscheduler.Base.Dict.{lookup}
use agscheduler.Errors.{Error, Panic, func_unregistered, job_timeout, delete_failed, update_failed}
use agscheduler.Result.{Result, ok, err, panic}
use agscheduler.Exec.{pure, continue}
use agscheduler.Time.{Time, before, whole_seconds}
use agscheduler.Job.{Job, full_name, type_datetime}
use agscheduler.Job.Calc.{calc_next_run_time}
use agscheduler.Job.Ready.{calc-last_run_time}
use agscheduler.Job.Print.{next_run_time_with_timezone_lem, localized}
use agscheduler.Job.Init as JobInit
use agscheduler.Job.Init.{FuncMap}
use agscheduler.Env.{Env}
use agscheduler.Store.{Store}
use agscheduler.Store.Contract.{IsLawful}
use agscheduler.Cluster.{ClusterNode}
use agscheduler.Scheduler.{World, Event, ran, unregistered, sent, logged, update_job, delete_job}
use agscheduler.Scheduler.Jobs.{
  delete_job_run, update_job_ok, update_job_refused, update_job_rejected, missing_job_unchanged,
}
use agscheduler.Scheduler.Run.{
  is_callable, run_func, run_local, run_queued, schedule, schedule_in, flush_job, map_err,
}
use agscheduler.Scheduler.Loop.{log_err}

-- The identifiers of the jobs that were started, in order.
unfoldable pub ran_ids : List Event → List String
ran_ids [] = []
ran_ids (ran j ∷ es) = j.id ∷ ran_ids es
ran_ids (unregistered j ∷ es) = ran_ids es
ran_ids (sent n j ∷ es) = ran_ids es
ran_ids (logged e ∷ es) = ran_ids es

pub ran_ids-append : (es fs : List Event) → ran_ids (es ++ fs) ≡ ran_ids es ++ ran_ids fs
unfolding ran_ids
ran_ids-append [] fs = refl
ran_ids-append (ran j ∷ es) fs = ap (◌∷◌ j.id) (ran_ids-append es fs)
ran_ids-append (unregistered j ∷ es) fs = ran_ids-append es fs
ran_ids-append (sent n j ∷ es) fs = ran_ids-append es fs
ran_ids-append (logged e ∷ es) fs = ran_ids-append es fs

-- What the loop relies on in the state between two jobs.
pub record IsSteady {S : Type 0} (Inv : S → Type 0) (fs : FuncMap) (w : World S) : Type 0 where
  pub stored : Inv w.store
  pub ticks : w.timer ≢ none
  pub standalone : w.cluster_node ≡ none
  pub funcs : w.func_map ≡ fs

-- A job that the round can start: it names a registered function and no queue, and its next run
-- time can be computed at any time.
pub record IsRunnable (env : Env) (fs : FuncMap) (j : Job) : Type 0 where
  pub unqueued : j.queues ≡ []
  pub callable : is_callable fs j.func_name ≡ true
  pub timed : (now : Time) → (t : Time) × (calc_next_run_time env now j ≡ ok t)

module _ {S : Type 0} (Inv : S → Type 0) (fs : FuncMap) (w : World S) where
  -- A call that does not panic, leaves a steady state, and starts no job.
  pub record IsQuiet {A : Type 0} (r : Result A × World S) : Type 0 where
    pub calm : (p : Panic) → r.0 ≢ panic p
    pub steady : IsSteady Inv fs r.1
    pub silent : ran_ids r.1.events ≡ ran_ids w.events

  -- A call that ends well in a steady state, and started the jobs `ids`.
  pub record Starts (r : Result (Unit {0}) × World S) (ids : List String) : Type 0 where
    pub done : r.0 ≡ ok tt
    pub steady : IsSteady Inv fs r.1
    pub started : ran_ids r.1.events ≡ ran_ids w.events ++ ids

module _ {S : Type 0} {Inv : S → Type 0} {fs : FuncMap} {w : World S} where
  pub IsQuiet-err :
      {A : Type 0} (e : Error) → IsSteady Inv fs w → IsQuiet Inv fs w {A = A} (err e, w)
  IsQuiet-err e steady = record { calm = λ p h. cc; steady = steady; silent = refl }

  -- So is an error after the clock was read.
  pub IsQuiet-read :
      {A : Type 0} {n : ℕ} (e : Error)
      → IsSteady Inv fs w
      → IsQuiet Inv fs w {A = A} (err e, record w { clock_reads = n })
  IsQuiet-read e steady = record {
    calm = λ p h. cc;
    steady = record {
      stored = steady.stored;
      ticks = steady.ticks;
      standalone = steady.standalone;
      funcs = steady.funcs;
    };
    silent = refl;
  }

  pub IsQuiet-map_err :
      {A : Type 0} (f : Error → Error) (r : Result A × World S)
      → IsQuiet Inv fs w r
      → IsQuiet Inv fs w (map_err f r)
  unfolding map_err
  IsQuiet-map_err f (ok a, v) q = q
  IsQuiet-map_err f (err e, v) q = record { calm = λ p h. cc; steady = q.steady; silent = q.silent }
  IsQuiet-map_err f (panic p, v) q = q

  pub IsQuiet-then :
      {A : Type 0} (r : Result A × World S)
      → IsQuiet Inv fs w r
      → IsQuiet Inv fs w (continue r (λ _. pure tt))
  IsQuiet-then (ok a, v) q = record { calm = λ p h. cc; steady = q.steady; silent = q.silent }
  IsQuiet-then (err e, v) q = record { calm = λ p h. cc; steady = q.steady; silent = q.silent }
  IsQuiet-then (panic p, v) q = absurd (q.calm p refl)

  pub IsQuiet-pure : IsSteady Inv fs w → IsQuiet Inv fs w {A = Unit {0}} (ok tt, w)
  IsQuiet-pure steady = record { calm = λ p h. cc; steady = steady; silent = refl }

  pub IsQuiet-if :
      {A : Type 0} (b : Bool) (m n : World S → Result A × World S)
      → IsQuiet Inv fs w (m w)
      → IsQuiet Inv fs w (n w)
      → IsQuiet Inv fs w ((if b then m else n) w)
  IsQuiet-if true m n hm hn = hm
  IsQuiet-if false m n hm hn = hn

  -- The loop logs the error of a quiet call and goes on.
  pub log_err-Starts :
      (r : Result (Unit {0}) × World S) → IsQuiet Inv fs w r → Starts Inv fs w (log_err r) []
  unfolding log_err ran_ids
  log_err-Starts (ok u, v) q = record {
    done = refl;
    steady = q.steady;
    started = q.silent ∙ sym (append-nil _);
  }
  log_err-Starts (err e, v) q = record {
    done = refl;
    steady = record {
      stored = q.steady.stored;
      ticks = q.steady.ticks;
      standalone = q.steady.standalone;
      funcs = q.steady.funcs;
    };
    started =
        ran_ids-append v.events (logged e ∷ []) ∙ append-nil _ ∙ q.silent ∙ sym (append-nil _);
  }
  log_err-Starts (panic p, v) q = absurd (q.calm p refl)
