-- ===== src/Scheduler/Quiet/Calls.antt =====
-- The calls that the loop makes on the store without starting a job, and the call that starts one.
use agscheduler.Base.{
  String, ◌≡◌, refl, ap, ◌∙◌, ◌⊎◌, inl, inr, true, Option, none, some, [], ◌∷◌, ◌++◌, ◌==◌,
  Option-cases, Sum-cases,
}
use agscheduler.Base.Dict.{lookup}
use agscheduler.Errors.{Error, func_unregistered, job_timeout, delete_failed, update_failed}
use agscheduler.Result.{Result, ok, err}
use agscheduler.Time.{Time, before, whole_seconds}
use agscheduler.Job.{Job, full_name, type_datetime}
use agscheduler.Job.Calc.{calc_next_run_time}
use agscheduler.Job.Ready.{calc-last_run_time}
use agscheduler.Job.Print.{next_run_time_with_timezone_lem, localized}
use agscheduler.Job.Init as JobInit
use agscheduler.Job.Init.{FuncMap}
use agscheduler.Env.{Env}
use agscheduler.Store.{Store}
use agscheduler.Store.Contract.{IsLawful}
use agscheduler.Cluster.{ClusterNode}
use agscheduler.Scheduler.{World, ran, update_job, delete_job}
use agscheduler.Scheduler.Jobs.{
  delete_job_run, update_job_ok, update_job_refused, update_job_rejected, missing_job_unchanged,
}
use agscheduler.Scheduler.Run.{
  is_callable, run_func, run_local, run_queued, schedule, schedule_in, flush_job,
}
use agscheduler.Scheduler.Quiet.{
  ran_ids, IsSteady, IsQuiet, IsQuiet-err, IsQuiet-read, IsQuiet-map_err, IsQuiet-then,
  IsQuiet-pure, IsQuiet-if,
}

module _ (env : Env) where
  pub check_cases :
      (fs : FuncMap) (j : Job)
      → (JobInit.check env fs j ≡ ok tt) ⊎ ((e : Error) × (JobInit.check env fs j ≡ err e))
  unfolding JobInit.check
  check_cases fs j = elim (Option-cases (lookup j.func_name fs)) [
    | inl n ↦ inr (func_unregistered j.func_name, rw (n, JobInit.check) refl)
    | inr (f, p) ↦ elim (Sum-cases (env.parse_duration j.timeout)) [
      | inl (m, q) ↦ inr (
        job_timeout (full_name j) j.timeout m,
        rw (p, q, JobInit.check, JobInit.check_timeout) refl,
      )
      | inr (d, q) ↦ inl (rw (p, q, JobInit.check, JobInit.check_timeout) refl)
    ]
  ]

module _ (env : Env) {S : Type 0} (j : Job) (w : World S) where
  pub schedule_standalone : w.cluster_node ≡ none → schedule env j w ≡ run_local env j w
  unfolding schedule
  schedule_standalone h =
      ap
        (λ (o : Option ClusterNode).
          let r : Result (Unit {0}) × World S = elim o [
            | none ↦ run_local env j w
            | some cn ↦ schedule_in env cn j w
          ] in
          r)
        h

  run_func_callable :
      is_callable w.func_map j.func_name ≡ true
      → env.load_location j.timezone ≡ none
      → run_func env j w ≡ (ok tt, record w { events = w.events ++ ran j ∷ [] })
  unfolding run_func localized
  run_func_callable h zoned = rw (h, next_run_time_with_timezone_lem env j none zoned) refl

  -- Starting a job that can be started changes nothing but the events.
  pub schedule_starts :
      w.cluster_node ≡ none
      → j.queues ≡ []
      → is_callable w.func_map j.func_name ≡ true
      → env.load_location j.timezone ≡ none
      → schedule env j w ≡ (ok tt, record w { events = w.events ++ ran j ∷ [] })
  unfolding run_local
  schedule_starts standalone unqueued callable zoned =
      schedule_standalone standalone
      ∙ ap (λ qs. run_queued env qs j w) unqueued
      ∙ run_func_callable callable zoned

module _ (env : Env) {S : Type 0} {store : Store S} {Inv : S → Type 0}
    {view : S → String → Option Job} {kept : Job → Option Job}
    (lawful : IsLawful Inv view kept store) (fs : FuncMap) where
  -- An update starts no job and does not panic, whatever the store holds.
  update-IsQuiet :
      (w : World S) (j : Job)
      → IsSteady Inv fs w
      → ((now : Time) → (t : Time) × (calc_next_run_time env now j ≡ ok t))
      → IsQuiet Inv fs w (update_job env store j w)
  update-IsQuiet w j steady timed = elim (Option-cases (view w.store j.id)) [
    | inl absent ↦
        rw (missing_job_unchanged env lawful w j steady.stored absent).1 (IsQuiet-err _ steady)
    | inr (x, found) ↦ elim (check_cases env w.func_map j) [
      | inr (e, bad) ↦
          rw (update_job_rejected env lawful w j x e steady.stored found bad) (IsQuiet-err e steady)
      | inl good ↦
          let (t, calc) = timed (env.clock w.clock_reads) in
          elim (Option-cases (kept (record j { next_run_time = t }))) [
            | inl lost ↦
                let (e, refused) =
                  update_job_refused env lawful w j x t steady.stored found good calc lost in
                rw refused (IsQuiet-read e steady)
            | inr (k, keep) ↦
                let (done, stored, views, rest) =
                  update_job_ok env lawful w j x k t steady.stored found good calc steady.ticks
                    keep in
                record {
                  calm = λ p h. cc (done, h);
                  steady = record {
                    stored = stored;
                    ticks = rest.ticking;
                    standalone = rest.same_node ∙ steady.standalone;
                    funcs = rest.same_funcs ∙ steady.funcs;
                  };
                  silent = ap ran_ids rest.same_events;
                }
          ]
    ]
  ]

  delete-IsQuiet :
      (w : World S) (j : Job) → IsSteady Inv fs w → IsQuiet Inv fs w (delete_job env store j.id w)
  delete-IsQuiet w j steady = elim (Option-cases (view w.store j.id)) [
    | inl absent ↦
        rw (missing_job_unchanged env lawful w j steady.stored absent).2 (IsQuiet-err _ steady)
    | inr (x, found) ↦
        let change = lawful.map_laws.delete w.store j.id x steady.stored found in
        rw (delete_job_run env lawful w j.id x steady.stored found) (record {
          calm = λ p h. cc;
          steady = record {
            stored = change.keeps;
            ticks = steady.ticks;
            standalone = steady.standalone;
            funcs = steady.funcs;
          };
          silent = refl;
        })
  ]

  pub flush-IsQuiet :
      (w : World S) (j : Job) (now : Time)
      → IsSteady Inv fs w
      → ((now : Time) → (t : Time) × (calc_next_run_time env now j ≡ ok t))
      → IsQuiet Inv fs w (flush_job env store j now w)
  unfolding flush_job
  flush-IsQuiet w j now steady timed =
      let stamped = record j { last_run_time = whole_seconds now } in
      IsQuiet-if (j.type == type_datetime) _ _
        (IsQuiet-if (before j.next_run_time now) _ _
          (IsQuiet-map_err (delete_failed (full_name j)) _ (delete-IsQuiet w j steady))
          (IsQuiet-pure steady))
        (IsQuiet-then _ (
          IsQuiet-map_err (update_failed (full_name j)) _ (
            update-IsQuiet w stamped steady λ at.
              let (t, e) = timed at in (t, calc-last_run_time env at (whole_seconds now) j ∙ e))))
