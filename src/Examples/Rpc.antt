-- ===== src/Examples/Rpc.antt =====
-- examples/rpc: `runExampleRPC` and the programs around it. The calls reach the service; where one
-- ends in an error, the client has a nil message.
use agscheduler.Base.{ℕ, ◌*◌, Option, none, some, List, [], false}
use agscheduler.Errors.{nil_message}
use agscheduler.Result.{Result, ok, panic}
use agscheduler.Exec.{Exec, pure, lift, ◌>>=◌, ◌>>◌}
use agscheduler.Time.{Time, second, unix_epoch}
use agscheduler.Job.{Job, zero_job, type_interval, type_cron, type_datetime}
use agscheduler.Job.Proto.{StructPb, PbJob, job_to_pb, pb_to_job, pb_to_jobs}
use agscheduler.Env.{Env}
use agscheduler.Store.{Store}
use agscheduler.Store.Memory as Memory
use agscheduler.Store.Memory.{MemoryStore, memory_store}
use agscheduler.Scheduler.{World, set_store}
use agscheduler.Services.Rpc.{
  Request, Reply, empty, job, jobs, add_job, get_job, get_all_jobs, update_job, delete_job,
  delete_all_jobs, pause_job, resume_job, run_job_now, start, stop, call,
}
use agscheduler.Examples.{Turn, statement, args1, args2, args3, print_msg_name}
use agscheduler.Examples.Stores.{register_print}

abbrev pub first_job : Job
first_job = record zero_job {
  name = "Job1";
  type = type_interval;
  interval = "2s";
  timezone = "UTC";
  func_name = print_msg_name;
  args = args1;
}

abbrev pub second_job : Job
second_job = record zero_job {
  name = "Job2";
  type = type_cron;
  cron_expr = "*/1 * * * *";
  timezone = "Asia/Shanghai";
  func_name = print_msg_name;
  args = args2;
}

abbrev pub third_job : Job
third_job = record zero_job {
  name = "Job3";
  type = type_datetime;
  start_at = "2023-09-22 07:30:08";
  timezone = "America/New_York";
  func_name = print_msg_name;
  args = args3;
}

-- A nil `*timestamppb.Timestamp` as a time.
abbrev pub nil_time : Time
nil_time = unix_epoch * second

module _ {Struct : Type 0} where
  -- What the getters give for a nil message, and what the service receives of it.
  abbrev pub nil_job : PbJob Struct
  nil_job = record {
    id = "";
    name = "";
    type = "";
    start_at = "";
    end_at = "";
    interval = "";
    cron_expr = "";
    timezone = "";
    func_name = "";
    args = none;
    timeout = "";
    queues = [];
    last_run_time = nil_time;
    next_run_time = nil_time;
    status = "";
    scheduled = false;
  }

  -- The message of a reply, as the client's getters read it.
  unfoldable pub job_of : Option (Reply Struct) → PbJob Struct
  job_of (some (job p)) = p
  job_of (some empty) = nil_job
  job_of (some (jobs ps)) = nil_job
  job_of none = nil_job

  -- `pbJs.Jobs`
  unfoldable pub jobs_of : Option (Reply Struct) → Result (List (PbJob Struct))
  jobs_of (some (jobs ps)) = ok ps
  jobs_of (some empty) = panic nil_message
  jobs_of (some (job p)) = panic nil_message
  jobs_of none = panic nil_message

module _ (env : Env) {S Struct : Type 0} (pb : StructPb Struct) (store : Store S) where
  -- A call whose error the client drops.
  unfoldable pub ask : List Turn → Request Struct → Exec (World S) (Option (Reply Struct))
  unfolding statement
  ask ts r = statement env store ts none (call env pb store r)

  -- The same, for a call that replies with a job.
  unfoldable pub ask_job : List Turn → Request Struct → Exec (World S) Job
  unfolding ask job_of pb_to_job
  ask_job ts r = do reply ← ask ts r; pure (pb_to_job pb (job_of reply))

  unfoldable pub run_example_rpc : (turns : ℕ → List Turn) → Exec (World S) Unit
  unfolding ask ask_job job_of jobs_of job_to_pb pb_to_job pb_to_jobs
  run_example_rpc turns = do
    job1 ← ask_job (turns 0) (add_job (job_to_pb pb first_job))
    job2 ← ask_job (turns 1) (add_job (job_to_pb pb second_job))
    ask (turns 2) start
    ask_job (turns 3) (add_job (job_to_pb pb third_job))
    all ← ask (turns 4) get_all_jobs
    lift (jobs_of all)
    found ← ask_job (turns 5) (get_job job1.id)
    updated ←
        ask_job (turns 6)
          (update_job (job_to_pb pb (record job2 { type = type_interval; interval = "3s" })))
    paused ← ask_job (turns 7) (pause_job found.id)
    resumed ← ask (turns 8) (resume_job paused.id)
    ask (turns 9) (delete_job updated.id)
    ask (turns 10) stop
    ask (turns 11) (run_job_now (job_of resumed))
    ask (turns 12) start
    ask [] delete_all_jobs
    pure tt

  -- rpc_client.go: `runExampleRPC` there adds one job.
  unfoldable pub run_client_rpc : Exec (World S) Unit
  unfolding ask_job job_to_pb
  run_client_rpc = do ask_job [] (add_job (job_to_pb pb first_job)); pure tt

module _ (env : Env) {Struct : Type 0} (pb : StructPb Struct) where
  -- `main` of rpc_server.go, up to the `select` that waits for ever; `bound` is what the start of
  -- the service reports.
  unfoldable pub rpc_server :
      (bound : Result (Unit {0})) → (print_msg : ℕ) → Exec (World MemoryStore) Unit
  unfolding register_print
  rpc_server bound print_msg = do
    register_print env (memory_store env.sort) print_msg
    set_store env (memory_store env.sort) Memory.empty
    lift bound

  -- `main` of rpc.go, which sets up the same service.
  unfoldable pub rpc_main :
      (bound : Result (Unit {0}))
      → (print_msg : ℕ) → (turns : ℕ → List Turn) → Exec (World MemoryStore) Unit
  unfolding rpc_server run_example_rpc
  rpc_main bound print_msg turns = do
    rpc_server bound print_msg
    run_example_rpc env pb (memory_store env.sort) turns
