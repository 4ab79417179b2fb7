-- ===== src/Services/Rpc.antt =====
-- services/rpc.go: the handlers of the gRPC service, and `_runJobRemote` of scheduler.go, which
-- calls the one for running a job.
use agscheduler.Base.{String, true, Option, none, some, List, if◌then◌else◌}
use agscheduler.Result.{Result, ok, err, panic}
use agscheduler.Exec.{Exec}
use agscheduler.Job.{Job}
use agscheduler.Job.Proto.{StructPb, PbJob, job_to_pb, pb_to_job, jobs_to_pb}
use agscheduler.Env.{Env}
use agscheduler.Store.{Store, elements}
use agscheduler.Scheduler as Ops
use agscheduler.Scheduler.{World}
use agscheduler.Scheduler.Run.{run_job, schedule_job}

pub data Request (Struct : Type 0) : Type 0 where
  add_job : PbJob Struct → Request Struct
  get_job : String → Request Struct
  get_all_jobs : Request Struct
  update_job : PbJob Struct → Request Struct
  delete_job : String → Request Struct
  delete_all_jobs : Request Struct
  pause_job : String → Request Struct
  resume_job : String → Request Struct
  run_job_now : PbJob Struct → Request Struct
  start : Request Struct
  stop : Request Struct

pub data Reply (Struct : Type 0) : Type 0 where
  empty : Reply Struct
  job : PbJob Struct → Reply Struct
  jobs : List (PbJob Struct) → Reply Struct

map_result : {A B : Type 0} → (A → B) → Result A → Result B
map_result f (ok a) = ok (f a)
map_result f (err e) = err e
map_result f (panic p) = panic p

-- A reply beside an error is not sent by gRPC, and is left out.
unfoldable pub map_ok : {S A B : Type 0} → (A → B) → Exec S A → Exec S B
unfolding map_result
map_ok f m s = let (r, v) = m s in (map_result f r, v)

-- `panicInterceptor`: after a panic the reply is nil and there is no error.
recovered : {A : Type 0} → Result A → Result (Option A)
recovered (ok a) = ok (some a)
recovered (err e) = err e
recovered (panic p) = ok none

unfoldable pub intercept : {S A : Type 0} → Exec S A → Exec S (Option A)
unfolding recovered
intercept m s = let (r, v) = m s in (recovered r, v)

module _ (env : Env) {S Struct : Type 0} (pb : StructPb Struct) (store : Store S) where
  -- `RunJob`
  unfoldable pub run_pb_job : PbJob Struct → Exec (World S) Unit
  unfolding run_job schedule_job pb_to_job
  run_pb_job p =
      if p.scheduled then run_job env (pb_to_job pb p) else schedule_job env (pb_to_job pb p)

  -- `GetAllJobs`
  unfoldable pub list_jobs : Exec (World S) (List Job)
  list_jobs w = elim (store.get_all_jobs w.store) [
    | ok js ↦ (ok (elements store js w.store), w)
    | err e ↦ (err e, w)
    | panic p ↦ (panic p, w)
  ]

  unfoldable pub handle : Request Struct → Exec (World S) (Reply Struct)
  unfolding map_ok run_pb_job list_jobs
  handle (add_job p) = map_ok (λ j. job (job_to_pb pb j)) (Ops.add_job env store (pb_to_job pb p))
  handle (get_job id) = map_ok (λ j. job (job_to_pb pb j)) (Ops.get_job env store id)
  handle get_all_jobs = map_ok (λ js. jobs (jobs_to_pb pb js)) list_jobs
  handle (update_job p) =
      map_ok (λ j. job (job_to_pb pb j)) (Ops.update_job env store (pb_to_job pb p))
  handle (delete_job id) = map_ok (λ u. empty) (Ops.delete_job env store id)
  handle delete_all_jobs = map_ok (λ u. empty) (Ops.delete_all_jobs env store)
  handle (pause_job id) = map_ok (λ j. job (job_to_pb pb j)) (Ops.pause_job env store id)
  handle (resume_job id) = map_ok (λ j. job (job_to_pb pb j)) (Ops.resume_job env store id)
  handle (run_job_now p) = map_ok (λ u. empty) (run_pb_job p)
  handle start = map_ok (λ u. empty) Ops.start
  handle stop = map_ok (λ u. empty) Ops.stop_running

  -- A call as gRPC makes it.
  unfoldable pub call : Request Struct → Exec (World S) (Option (Reply Struct))
  unfolding handle intercept
  call r = intercept (handle r)

  -- The request that `_runJobRemote` sends.
  unfoldable pub remote_request : Job → Request Struct
  unfolding job_to_pb
  remote_request j = run_job_now (record (job_to_pb pb j) { scheduled = true })
