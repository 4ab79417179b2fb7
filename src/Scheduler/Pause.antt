-- ===== src/Scheduler/Pause.antt =====
-- `PauseJob` of scheduler.go, and the fixed date that a paused job waits for.
use agscheduler.Base.{
  ap, inl, inr, eq_refl, Bool-cases, String, ◌≡◌, refl, ◌∙◌, none, some, Option, ◌≢◌, if◌then◌else◌,
  ◌==◌,
}
use agscheduler.Result.{ok}
use agscheduler.Time.{Time, whole_seconds}
use agscheduler.Job.{Job, full_name, status_paused, status_running}
use agscheduler.Job.Calc.{calc_next_run_time, paused_time}
use agscheduler.Job.Init as JobInit
use agscheduler.Env.{Env}
use agscheduler.Store.{Store}
use agscheduler.Store.Contract.{IsLawful}
use agscheduler.Scheduler.{World, get_job, pause_job, resume_job}
use agscheduler.Scheduler.Jobs.{update_job_ok, SameRest}

module _ (env : Env) where
  -- A paused job waits for the fixed date, whatever the clock says and whatever its type.
  pub calc_paused :
      (now : Time) (j : Job)
      → env.load_location j.timezone ≡ none
      → j.status ≡ status_paused
      → calc_next_run_time env now j ≡ ok (whole_seconds (paused_time env j.timezone))
  unfolding calc_next_run_time
  calc_paused now j loaded paused = rw (loaded, paused, calc_next_run_time) refl

  -- A job, paused.
  abbrev pub paused_job : Job → Job
  paused_job x = record x {
    status = status_paused;
    next_run_time = whole_seconds (paused_time env x.timezone);
  }

  check_status :
      (fs : JobInit.FuncMap) (s : String) (j : Job)
      → JobInit.check env fs (record j { status = s }) ≡ JobInit.check env fs j
  unfolding JobInit.check full_name
  check_status fs s j = refl

  check_paused :
      (fs : JobInit.FuncMap) (x : Job)
      → JobInit.check env fs (paused_job x) ≡ JobInit.check env fs x
  unfolding JobInit.check full_name
  check_paused fs x = refl

-- A second change of the same entry hides the first.
again :
    (id i : String) (new old former : Option Job) {was : Option Job}
    → was ≡ (if id == i then former else old)
    → (if id == i then new else was) ≡ (if id == i then new else old)
again id i new old former e = elim (Bool-cases (id == i)) [
  | inl h ↦ rw h refl
  | inr h ↦ rw h (e ∙ rw h refl)
]

module _ (env : Env) {S : Type 0} {store : Store S} {Inv : S → Type 0}
    {view : S → String → Option Job} {kept : Job → Option Job}
    (lawful : IsLawful Inv view kept store) where
  -- Over a lawful store in its invariant, for a scheduler with a timer and a stored job that
  -- passes `check`, has a time zone that loads and can be kept by the store when it is paused:
  -- `PauseJob` succeeds and returns the job with the status "paused" and the fixed date of paused
  -- jobs as its next run time, whatever its type, leaves what the store keeps of that under its
  -- identifier, and changes no other job; the invariant of the store is kept, and the events, the
  -- functions, the node, the running state, the goroutines and the unread messages stay as they
  -- were.
  pause_job_ok :
      (w : World S) (x k : Job)
      → Inv w.store
      → view w.store x.id ≡ some x
      → JobInit.check env w.func_map x ≡ ok tt
      → env.load_location x.timezone ≡ none
      → w.timer ≢ none
      → kept (paused_job env x) ≡ some k
      → let r = pause_job env store x.id w in
        (r.0 ≡ ok (paused_job env x))
        × Inv r.1.store
        × ((i : String) → view r.1.store i ≡ (if x.id == i then some k else view w.store i))
        × SameRest w r.1
  unfolding pause_job get_job
  pause_job_ok w x k v found checked loaded timer keep =
      rw (lawful.map_laws.get w.store x.id v, found)
        (update_job_ok env lawful w (record x { status = status_paused }) x k
          (whole_seconds (paused_time env x.timezone)) v found
          (check_status env w.func_map status_paused x ∙ checked)
          (calc_paused env (env.clock w.clock_reads) (record x { status = status_paused }) loaded
            refl)
          timer keep)

  -- Over a lawful store in its invariant, for a scheduler with a timer and a stored job that
  -- passes `check`, has a time zone that loads, is kept by the store as it is when it is paused,
  -- and has a next run time when it is active again: `PauseJob` and then `ResumeJob` return the
  -- job with the status "running" and that next run time, leave what the store keeps of it under
  -- its identifier, and change no other job.
  pub pause_then_resume :
      (w : World S) (x k : Job) (next : Time)
      → Inv w.store
      → view w.store x.id ≡ some x
      → JobInit.check env w.func_map x ≡ ok tt
      → env.load_location x.timezone ≡ none
      → w.timer ≢ none
      → kept (paused_job env x) ≡ some (paused_job env x)
      → let v = (pause_job env store x.id w).1 in
        let active = record x {
          status = status_running;
          next_run_time = whole_seconds (paused_time env x.timezone);
        } in
        calc_next_run_time env (env.clock v.clock_reads) active ≡ ok next
        → kept (record x { status = status_running; next_run_time = next }) ≡ some k
        → let r = resume_job env store x.id (pause_job env store x.id w).1 in
          (r.0 ≡ ok (record x { status = status_running; next_run_time = next }))
          × Inv r.1.store
          × ((i : String) → view r.1.store i ≡ (if x.id == i then some k else view w.store i))
  unfolding resume_job get_job
  pause_then_resume w x k next v found checked loaded timer keep calc keep' =
      let (paused_ok, still, views, rest) =
        pause_job_ok w x (paused_job env x) v found checked loaded timer keep in
      let after = (pause_job env store x.id w).1 in
      let here : view after.store x.id ≡ some (paused_job env x) =
        views x.id ∙ rw (eq_refl x.id) refl in
      let active = record (paused_job env x) { status = status_running } in
      let good : JobInit.check env after.func_map active ≡ ok tt =
        ap (λ fs. JobInit.check env fs active) rest.same_funcs
        ∙ check_status env w.func_map status_running (paused_job env x)
        ∙ check_paused env w.func_map x
        ∙ checked in
      let (done, now, left, others) =
        update_job_ok env lawful after active (paused_job env x) k next still here good calc
          rest.ticking keep' in
      rw (lawful.map_laws.get after.store x.id still, here)
        (done, now, λ i. left i ∙ again x.id i (some k) _ _ (views i))
