-- ===== src/Job/Proto.antt =====
-- `JobToPbJobPtr`, `PbJobPtrToJob` and their versions on lists, of job.go, and the messages of
-- scheduler.proto. A timestamp is kept as its instant. The package `structpb` is an argument.
use agscheduler.Base.{String, ◌≡◌, refl, Bool, false, Option, none, some, List, [], ◌∷◌, map, All}
use agscheduler.Time.{Time}
use agscheduler.Job.{Job}
use agscheduler.Job.Value.{Fields, no_fields}

-- `structpb.NewStruct`, `none` where it fails, and `AsMap` of a struct.
pub record StructPb (Struct : Type 0) : Type 0 where
  pub new_struct : Fields → Option Struct
  pub as_map : Struct → Fields

-- The message `Job`; a missing struct is a nil pointer.
pub record PbJob (Struct : Type 0) : Type 0 where
  pub id : String
  pub name : String
  pub type : String
  pub start_at : String
  pub end_at : String
  pub interval : String
  pub cron_expr : String
  pub timezone : String
  pub func_name : String
  pub args : Option Struct
  pub timeout : String
  pub queues : List String
  pub last_run_time : Time
  pub next_run_time : Time
  pub status : String
  pub scheduled : Bool

module _ {Struct : Type 0} (pb : StructPb Struct) where
  -- The error of `NewStruct` is dropped, and the struct is then nil.
  unfoldable pub job_to_pb : Job → PbJob Struct
  job_to_pb j = record {
    id = j.id;
    name = j.name;
    type = j.type;
    start_at = j.start_at;
    end_at = j.end_at;
    interval = j.interval;
    cron_expr = j.cron_expr;
    timezone = j.timezone;
    func_name = j.func_name;
    args = pb.new_struct j.args;
    timeout = j.timeout;
    queues = j.queues;
    last_run_time = j.last_run_time;
    next_run_time = j.next_run_time;
    status = j.status;
    scheduled = false;
  }

  -- `GetArgs().AsMap()`, which is empty for a nil struct.
  unfoldable pub map_of : Option Struct → Fields
  map_of none = no_fields
  map_of (some s) = pb.as_map s

  unfoldable pub pb_to_job : PbJob Struct → Job
  unfolding map_of
  pb_to_job p = record {
    id = p.id;
    name = p.name;
    type = p.type;
    start_at = p.start_at;
    end_at = p.end_at;
    interval = p.interval;
    cron_expr = p.cron_expr;
    timezone = p.timezone;
    func = 0;
    func_name = p.func_name;
    args = map_of p.args;
    timeout = p.timeout;
    queues = p.queues;
    last_run_time = p.last_run_time;
    next_run_time = p.next_run_time;
    status = p.status;
  }

  unfoldable pub jobs_to_pb : List Job → List (PbJob Struct)
  unfolding job_to_pb
  jobs_to_pb [] = []
  jobs_to_pb (j ∷ js) = job_to_pb j ∷ jobs_to_pb js

  unfoldable pub pb_to_jobs : List (PbJob Struct) → List Job
  unfolding pb_to_job
  pb_to_jobs [] = []
  pb_to_jobs (p ∷ ps) = pb_to_job p ∷ pb_to_jobs ps

  -- The arguments of a job that `structpb` can carry.
  abbrev pub IsCarried : Job → Type 0
  IsCarried j = (s : Struct) × (pb.new_struct j.args ≡ some s) × (pb.as_map s ≡ j.args)

  pub pb_to_job-job_to_pb :
      (j : Job) → IsCarried j → pb_to_job (job_to_pb j) ≡ record j { func = 0 }
  unfolding pb_to_job job_to_pb
  pb_to_job-job_to_pb j (s, made, back) = rw (made, map_of, back) refl

  -- A list of jobs whose arguments `structpb` can carry comes back from its messages in the same
  -- order, each job as it was but for its function pointer, which is nil.
  pub pb_to_jobs-jobs_to_pb :
      (js : List Job)
      → All IsCarried js
      → pb_to_jobs (jobs_to_pb js) ≡ map {A = Job} (λ j. record j { func = 0 }) js
  unfolding pb_to_jobs jobs_to_pb
  pb_to_jobs-jobs_to_pb [] h = refl
  pb_to_jobs-jobs_to_pb (j ∷ js) h = cc (pb_to_job-job_to_pb j h.0, pb_to_jobs-jobs_to_pb js h.1)

  -- A job whose arguments `structpb` refuses comes back from its message without any arguments and
  -- without its function pointer, and otherwise as it was.
  job_to_pb_loses :
      (j : Job)
      → pb.new_struct j.args ≡ none
      → pb_to_job (job_to_pb j) ≡ record j { func = 0; args = no_fields }
  unfolding pb_to_job job_to_pb
  job_to_pb_loses j h = rw (h, map_of) refl
