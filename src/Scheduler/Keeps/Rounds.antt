-- ===== src/Scheduler/Keeps/Rounds.antt =====
-- A round of the scheduler keeps what updating and deleting a job keep.
use agscheduler.Base.{
  ℕ, zero, suc, ◌+◌, String, ◌≡◌, Option, none, some, [], ◌∷◌, inl, inr, if◌then◌else◌, ◌==◌,
}
use agscheduler.Result.{Result, ok, err, panic}
use agscheduler.Exec.{continue}
use agscheduler.Time.{Time, before}
use agscheduler.Job.{Job, type_datetime}
use agscheduler.Env.{Env}
use agscheduler.Store.{Store, Slice, elements, element, sort_slice}
use agscheduler.Store.Contract.{IsLawful}
use agscheduler.Scheduler.{fired, World, update_job, delete_job, stop_running}
use agscheduler.Scheduler.Run.{schedule, flush_job}
use agscheduler.Scheduler.Loop.{log_err, run_at, run_due, visit, rearm, round, tick}
use agscheduler.Scheduler.Jobs.{next_wakeup_ok}
use agscheduler.Scheduler.Keeps.{
  At, result_cases, continue_keeps, if_keeps, pick_keeps, map_err_keeps, log_err_keeps, stop_keeps,
  schedule_keeps,
}

module _ (env : Env) {S : Type 0} {store : Store S} {Inv : S → Type 0}
    {view : S → String → Option Job} {kept : Job → Option Job}
    (lawful : IsLawful Inv view kept store) where
  module _ (P : S → ℕ → Type 0) (stored : (s : S) (n : ℕ) → P s n → Inv s)
      (updates : (j : Job) (w : World S) → At P w → At P (update_job env store j w).1)
      (deletes : (id : String) (w : World S) → At P w → At P (delete_job env store id w).1) where
    flush_job_keeps :
        (j : Job) (now : Time) (w : World S) → At P w → At P (flush_job env store j now w).1
    unfolding flush_job
    flush_job_keeps j now w v =
        if_keeps P (j.type == type_datetime) _ _ w
          (if_keeps P (before j.next_run_time now) _ _ w (map_err_keeps P _ _ (deletes j.id w v)) v)
          (continue_keeps P _ _ (map_err_keeps P _ _ (updates _ w v)) (λ u x h. h))

    run_at_keeps :
        (now : Time) (j : Job) (next : Result Time) (w : World S)
        → At P w
        → At P (run_at env store now j next w).1
    unfolding run_at
    run_at_keeps now j (ok next) w v =
        let timed = record j { next_run_time = next } in
        continue_keeps P (log_err (schedule env timed w))
          (λ _ x. log_err (flush_job env store timed now x))
          (log_err_keeps P (schedule env timed w) (schedule_keeps P env timed w v))
          (λ u x h.
            log_err_keeps P (flush_job env store timed now x) (flush_job_keeps timed now x h))
    run_at_keeps now j (err e) w v = v
    run_at_keeps now j (panic p) w v = v

    visit_keeps :
        (rounds k : ℕ) (js : Slice) (now : Time) (w : World S)
        → At P w
        → At P (visit env store rounds k js now w).1
    unfolding visit run_due
    visit_keeps zero k js now w v = v
    visit_keeps (suc rounds) k js now w v =
        elim (element store js k w.store)
          as (λ o.
            let r : Result (Unit {0}) × World S = elim o [
              | none ↦ (ok tt, w)
              | some j ↦
                  if before j.next_run_time now
                  then continue (run_due env store now j w)
                      (λ _. visit env store rounds (suc k) js now)
                  else (ok tt, w)
            ] in
            At P r.1) [
              | none ↦ v
              | some j ↦
                  pick_keeps P (before j.next_run_time now) _ _
                    (continue_keeps P _ _ (run_at_keeps now j _ _ v)
                      (λ u x h. visit_keeps rounds (suc k) js now x h))
                    v
            ]

    rearm_keeps : (w : World S) → At P w → At P (rearm env store w).1
    unfolding rearm
    rearm_keeps w v = let (d, e) = next_wakeup_ok env lawful w (stored w.store w.uuids v) in rw e v

    module _
        (sorts : (s : S) (n : ℕ) (js : Slice)
          → P s n
          → store.get_all_jobs s ≡ ok js
          → P (sort_slice store env.sort js s).1 n) where
      pub tick_keeps : (w : World S) → At P w → At P (tick env store w).1
      unfolding tick round
      tick_keeps w v = elim (result_cases (store.get_all_jobs w.store)) [
        | inr (inl (e, h)) ↦ rw h v
        | inr (inr (p, h)) ↦ rw h v
        | inl (js, h) ↦
            let woken : World S = record w {
              timer = some fired;
              clock_reads = w.clock_reads + 1;
            } in
            let now = env.clock w.clock_reads in
            let went =
              elim (elements store js w.store)
                as (λ l.
                  let r : Result (Unit {0}) × World S = elim l [
                    | [] ↦ stop_running woken
                    | j ∷ rest ↦ round env store now js woken
                  ] in
                  At P r.1) [
                    | [] ↦ stop_keeps P woken v
                    | j ∷ rest ↦
                        continue_keeps P _ _
                          (visit_keeps _ 0 _ now _ (sorts w.store w.uuids js v h))
                          (λ u x held. rearm_keeps x held)
                  ] in
            rw h went
      ]
