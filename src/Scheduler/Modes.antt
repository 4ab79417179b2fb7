-- ===== src/Scheduler/Modes.antt =====
-- Where a job goes: standalone and cluster mode, queues, and the types of jobs.
use agscheduler.Base.{
  ◌+◌, String, ◌≡◌, ◌≢◌, refl, ap, ◌∙◌, Bool, true, false, Option, none, some, inr, List, [], ◌∷◌,
  ◌++◌, ne→test, eq_iff, eq_refl, if◌then◌else◌, ◌==◌,
}
use agscheduler.Errors.{nil_cluster_node, no_queue}
use agscheduler.Result.{Result, ok, err, panic}
use agscheduler.Exec.{continue}
use agscheduler.Time.{Time, before, whole_seconds}
use agscheduler.Job.{Job, type_datetime, status_paused}
use agscheduler.Job.Print.{show_list}
use agscheduler.Job.Calc.{calc_next_run_time, next_by_type, next_datetime}
use agscheduler.Job.Ready.{calc-last_run_time, check-last_run_time}
use agscheduler.Job.Init as JobInit
use agscheduler.Env.{Env}
use agscheduler.Store.{Store}
use agscheduler.Store.Contract.{IsLawful}
use agscheduler.Cluster.{Node, ClusterNode, choice_node}
use agscheduler.Cluster.Choice.{IsOffered, choice_node-IsOffered}
use agscheduler.Scheduler.{World, sent, update_job}
use agscheduler.Scheduler.Run.{
  run_func, run_local, run_queued, serves_queue, remote_node, schedule_in, place, schedule,
  flush_job,
}
use agscheduler.Scheduler.Quiet.Calls.{schedule_standalone}
use agscheduler.Scheduler.Jobs.{done_pair, delete_job_run, update_job_ok}

module _ (env : Env) {S : Type 0} (w : World S) (j : Job) where
  -- In standalone mode `_scheduleJob` of a job that names a queue panics with a nil pointer and
  -- starts nothing: the scheduler stays as it was.
  standalone_queue_panics :
      (q : String) (qs : List String)
      → w.cluster_node ≡ none
      → j.queues ≡ q ∷ qs
      → schedule env j w ≡ (panic nil_cluster_node, w)
  unfolding run_local
  standalone_queue_panics q qs standalone queues =
      schedule_standalone env j w standalone
      ∙ ap (λ l. run_queued env l j w) queues
      ∙ ap
          (λ cn.
            continue (serves_queue (q ∷ qs) cn, w)
              (λ served v.
                (if served then run_func env j else (λ u. (err (no_queue (show_list (q ∷ qs))), u)))
                  v))
          standalone

  -- In cluster mode a job for which `choiceNode` chooses a node other than this one is sent to
  -- that node, which is registered, healthy and in a queue that the job names, or in any if it
  -- names none; nothing else of the scheduler changes but the number of random draws.
  pub schedule_sends :
      (cn : ClusterNode) (node : Node)
      → w.cluster_node ≡ some cn
      → choice_node (env.draw w.draws) j.queues cn ≡ ok node
      → cn.id ≢ node.id
      → (schedule env j w
          ≡ (ok tt, record w { draws = w.draws + 1; events = w.events ++ sent node j ∷ [] }))
        × IsOffered j.queues cn.node_map node
  unfolding schedule schedule_in
  schedule_sends cn node clustered chosen other =
      let drawn : World S = record w { draws = w.draws + 1 } in
      (
        ap
              (λ (o : Option ClusterNode).
                let r : Result (Unit {0}) × World S = elim o [
                  | none ↦ run_local env j w
                  | some c ↦ schedule_in env c j w
                ] in
                r)
              clustered
            ∙ ap (λ r. continue (remote_node cn r, drawn) (λ t. place env j t)) chosen
            ∙ ap (λ (b : Bool). place env j (if b then none else some node) drawn)
                (ne→test cn.id node.id other),
        choice_node-IsOffered (env.draw w.draws) j.queues cn node chosen,
      )

module _ (env : Env) where
  -- The date of a job, whatever the case of its type.
  calc_datetime :
      (now t : Time) (j : Job)
      → env.load_location j.timezone ≡ none
      → (j.status == status_paused) ≡ false
      → env.to_lower j.type ≡ type_datetime
      → env.parse_date j.start_at j.timezone ≡ inr t
      → calc_next_run_time env now j ≡ ok (whole_seconds t)
  unfolding calc_next_run_time
  calc_datetime now t j loaded active kind date =
      rw (loaded, active, kind, date, calc_next_run_time, next_by_type, next_datetime) refl

module _ (env : Env) {S : Type 0} {store : Store S} {Inv : S → Type 0}
    {view : S → String → Option Job} {kept : Job → Option Job}
    (lawful : IsLawful Inv view kept store) (w : World S) (j x : Job) (now : Time)
    (stored : Inv w.store) (found : view w.store j.id ≡ some x) where
  -- Over a lawful store in its invariant, `_flushJob` of a stored job of the type "datetime" whose
  -- next run time has passed succeeds, deletes that job, and changes no other.
  flush_deletes :
      j.type ≡ type_datetime
      → before j.next_run_time now ≡ true
      → let r = flush_job env store j now w in
        (r.0 ≡ ok tt)
        × ((i : String) → view r.1.store i ≡ (if j.id == i then none else view w.store i))
  unfolding flush_job
  flush_deletes kind late =
      let dated : (j.type == type_datetime) ≡ true = (eq_iff j.type type_datetime).1 kind in
      let change = lawful.map_laws.delete w.store j.id x stored found in
      rw (dated, late, delete_job_run env lawful w j.id x stored found) (refl, change.views)

  -- Over a lawful store in its invariant, for a scheduler with a timer and a stored job that is
  -- not paused, passes `check`, has a time zone that loads and a date that parses, and whose type
  -- is "datetime" in other letters, if the store can keep it with its run times written back:
  -- `_flushJob` succeeds and leaves in the store what it keeps of that job with the same date as
  -- its next run time, even if that date has passed.
  pub flush_keeps_late :
      (t : Time) (k : Job)
      → j.type ≢ type_datetime
      → env.to_lower j.type ≡ type_datetime
      → env.load_location j.timezone ≡ none
      → j.status ≢ status_paused
      → env.parse_date j.start_at j.timezone ≡ inr t
      → JobInit.check env w.func_map j ≡ ok tt
      → w.timer ≢ none
      → kept (record j { last_run_time = whole_seconds now; next_run_time = whole_seconds t })
        ≡ some k
      → let r = flush_job env store j now w in (r.0 ≡ ok tt) × (view r.1.store j.id ≡ some k)
  unfolding flush_job
  flush_keeps_late t k other kind loaded active date checked timer keep =
      let stamped = record j { last_run_time = whole_seconds now } in
      let at = env.clock w.clock_reads in
      let calc =
        calc-last_run_time env at (whole_seconds now) j
        ∙ calc_datetime env at t j loaded (ne→test j.status status_paused active) kind date in
      let (done, kept, views, rest) =
        update_job_ok env lawful w stamped x k (whole_seconds t) stored found
          (check-last_run_time env w.func_map (whole_seconds now) j ∙ checked) calc timer keep in
      rw (ne→test j.type type_datetime other, done_pair (update_job env store stamped w) done)
        (refl, views j.id ∙ rw (eq_refl j.id) refl)
