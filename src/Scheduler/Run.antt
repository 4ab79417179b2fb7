-- ===== src/Scheduler/Run.antt =====
-- `_runJob`, `_scheduleJob`, `RunJob`, `ScheduleJob` and `_flushJob` of scheduler.go.
use agscheduler.Base.{
  zero, suc, String, Bool, Option, none, some, List, [], ◌∷◌, if◌then◌else◌, ◌==◌, contains,
}
use agscheduler.Base.Dict.{lookup}
use agscheduler.Errors.{
  Error, delete_failed, update_failed, no_queue, schedule_failed, nil_cluster_node,
}
use agscheduler.Result.{Result, ok, err, panic}
use agscheduler.Exec.{Exec, pure, lift, gets, ◌>>=◌, ◌>>◌}
use agscheduler.Time.{Time, before, whole_seconds}
use agscheduler.Job.{Job, full_name, type_datetime}
use agscheduler.Job.Init.{FuncMap}
use agscheduler.Job.Print.{next_run_time_with_timezone, show_list}
use agscheduler.Env.{Env}
use agscheduler.Store.{Store}
use agscheduler.Cluster.{Node, ClusterNode, choice_node}
use agscheduler.Scheduler.{ran, unregistered, sent, World, emit, next_draw, update_job, delete_job}

-- `fmt.Errorf` round the error of a call.
unfoldable pub map_err {ℓ κ} :
    {S : Type ℓ} {A : Type κ} → (Error → Error) → Result A × S → Result A × S
map_err f (ok a, s) = (ok a, s)
map_err f (err e, s) = (err (f e), s)
map_err f (panic p, s) = (panic p, s)

-- `reflect.ValueOf(funcMap[j.FuncName]).IsNil()`: a missing function is nil too.
unfoldable pub is_callable : FuncMap → String → Bool
is_callable fs name = elim (lookup name fs) [
  | none ↦ Bool.false
  | some zero ↦ Bool.false
  | some (suc f) ↦ Bool.true
]

-- `slices.Contains(j.Queues, s.clusterNode.Queue)`
unfoldable pub serves_queue : List String → Option ClusterNode → Result Bool
serves_queue queues none = panic nil_cluster_node
serves_queue queues (some cn) = ok (contains queues cn.queue)

-- The choice of `_scheduleJob`: `none` to run the job here, also where `choiceNode` finds no node.
unfoldable pub remote_node : ClusterNode → Result Node → Result (Option Node)
remote_node cn (ok node) = ok (if cn.id == node.id then none else some node)
remote_node cn (err e) = ok none
remote_node cn (panic p) = panic p

module _ (env : Env) {S : Type 0} where
  -- `_runJob`, as far as the start of the goroutine that calls the function.
  -- The message that it logs before that prints the next run time in the time zone of the job.
  unfoldable pub run_func : Job → Exec (World S) Unit
  unfolding emit
  run_func j w =
      if is_callable w.func_map j.func_name
      then (do lift (next_run_time_with_timezone env j); emit (ran j)) w
      else emit (unregistered j) w

  -- `RunJob`
  unfoldable pub run_job : Job → Exec (World S) Unit
  unfolding run_func
  run_job j = run_func j

  -- The end of `_scheduleJob`, for a job that is run here; the list is `j.Queues`.
  unfoldable pub run_queued : List String → Job → Exec (World S) Unit
  unfolding run_func serves_queue
  run_queued [] j = run_func j
  run_queued (q ∷ qs) j = do
    cn ← gets (λ w. w.cluster_node)
    served ← lift (serves_queue (q ∷ qs) cn)
    if served then run_func j else lift (err (no_queue (show_list (q ∷ qs))))

  unfoldable pub run_local : Job → Exec (World S) Unit
  unfolding run_queued
  run_local j = run_queued j.queues j

  -- The job goes to another node, or is run here.
  unfoldable pub place : Job → Option Node → Exec (World S) Unit
  unfolding run_local emit
  place j none = run_local j
  place j (some node) = emit (sent node j)

  -- `_scheduleJob` in cluster mode.
  unfoldable pub schedule_in : ClusterNode → Job → Exec (World S) Unit
  unfolding place remote_node next_draw
  schedule_in cn j = do
    draw ← next_draw env
    target ← lift (remote_node cn (choice_node draw j.queues cn))
    place j target

  -- `_scheduleJob`
  unfoldable pub schedule : Job → Exec (World S) Unit
  unfolding run_local schedule_in
  schedule j w = elim w.cluster_node [ none ↦ run_local j w | some cn ↦ schedule_in cn j w ]

  -- `ScheduleJob`
  unfoldable pub schedule_job : Job → Exec (World S) Unit
  unfolding schedule map_err
  schedule_job j w = map_err (schedule_failed (full_name j)) (schedule j w)

module _ (env : Env) {S : Type 0} (store : Store S) where
  -- `_flushJob`; `now` is when the round of the scheduler began.
  unfoldable pub flush_job : Job → Time → Exec (World S) Unit
  unfolding map_err
  flush_job j now =
      let stamped = record j { last_run_time = whole_seconds now } in
      if j.type == type_datetime
      then if before j.next_run_time now
        then (λ w. map_err (delete_failed (full_name j)) (delete_job env store j.id w))
        else pure tt
      else (do
        (λ w. map_err (update_failed (full_name j)) (update_job env store stamped w))
        pure tt)
