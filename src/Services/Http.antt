-- ===== src/Services/Http.antt =====
-- services/http.go: the handlers of the HTTP service. A handler that panics does so here too; gin
-- answers for it.
use agscheduler.Base.{ℕ, String, Option, none, some, List, [], if◌then◌else◌, ◌==◌}
use agscheduler.Errors.{Error, text}
use agscheduler.Result.{Result, ok, err, panic}
use agscheduler.Exec.{Exec}
use agscheduler.Job.{Job, zero_job}
use agscheduler.Env.{Env}
use agscheduler.Store.{Store, Slice, elements}
use agscheduler.Scheduler as Ops
use agscheduler.Scheduler.{World}
use agscheduler.Scheduler.Run.{run_job}

pub data Data : Type 0 where
  nothing : Data
  job : Job → Data
  jobs : List Job → Data

pub record Response : Type 0 where
  pub status : ℕ
  pub data_part : Data
  pub error : String

-- What `BindJSON` made of the body: the job as far as it was read, and an error.
pub record Binding : Type 0 where
  pub bound : Job
  pub failure : Option Error

-- One constructor for each line of `registerRoutes`.
pub data Request : Type 0 where
  post_job : Binding → Request
  get_job : String → Request
  get_jobs : Request
  put_job : Binding → Request
  delete_job : String → Request
  delete_jobs : Request
  post_pause : String → Request
  post_resume : String → Request
  post_run : Binding → Request
  post_start : Request
  post_stop : Request

unfoldable pub handle_err : Option Error → String
handle_err none = ""
handle_err (some e) = text e

unfoldable pub handle_job : (status : ℕ) → Job → Option Error → Response
unfolding handle_err
handle_job status j e = record {
  status = status;
  data_part = if j.id == "" then nothing else job j;
  error = handle_err e;
}

-- The operations of the scheduler return `Job{}` beside an error.
unfoldable pub answer_job : Result Job → Result Response
unfolding handle_job
answer_job (ok j) = ok (handle_job 200 j none)
answer_job (err e) = ok (handle_job 200 zero_job (some e))
answer_job (panic p) = panic p

unfoldable pub answer_unit : Result (Unit {0}) → Result Response
unfolding handle_err
answer_unit (ok u) = ok (record { status = 200; data_part = nothing; error = "" })
answer_unit (err e) = ok (record { status = 200; data_part = nothing; error = handle_err (some e) })
answer_unit (panic p) = panic p

-- `deleteAllJobs` drops the error of the scheduler, and `start` and `stop` have none.
unfoldable pub answer_done : Result (Unit {0}) → Result Response
answer_done (ok u) = ok (record { status = 200; data_part = nothing; error = "" })
answer_done (err e) = ok (record { status = 200; data_part = nothing; error = "" })
answer_done (panic p) = panic p

module _ {S : Type 0} where
  unfoldable pub answer :
      {A : Type 0} → (Result A → Result Response) → Exec (World S) A → Exec (World S) Response
  answer f m w = let (r, v) = m w in (f r, v)

  -- A handler whose body is a job.
  unfoldable pub with_body : (Job → Exec (World S) Response) → Binding → Exec (World S) Response
  unfolding handle_job
  with_body f b w = elim b.failure [
    | none ↦ f b.bound w
    | some e ↦ (ok (handle_job 400 b.bound (some e)), w)
  ]

module _ (env : Env) {S : Type 0} (store : Store S) where
  -- `getAllJobs`; on an error the slice is nil.
  unfoldable pub answer_jobs : Result Slice → S → Result Response
  unfolding handle_err
  answer_jobs (ok js) s =
      ok (record { status = 200; data_part = jobs (elements store js s); error = "" })
  answer_jobs (err e) s =
      ok (record { status = 200; data_part = jobs []; error = handle_err (some e) })
  answer_jobs (panic p) s = panic p

  -- The handler of each route.
  unfoldable pub serve : Request → Exec (World S) Response
  unfolding answer with_body answer_job answer_unit answer_done answer_jobs
  serve (post_job b) = with_body (λ j. answer answer_job (Ops.add_job env store j)) b
  serve (get_job id) = answer answer_job (Ops.get_job env store id)
  serve get_jobs = λ w. (answer_jobs (store.get_all_jobs w.store) w.store, w)
  serve (put_job b) = with_body (λ j. answer answer_job (Ops.update_job env store j)) b
  serve (delete_job id) = answer answer_unit (Ops.delete_job env store id)
  serve delete_jobs = answer answer_done (Ops.delete_all_jobs env store)
  serve (post_pause id) = answer answer_job (Ops.pause_job env store id)
  serve (post_resume id) = answer answer_job (Ops.resume_job env store id)
  serve (post_run b) = with_body (λ j. answer answer_unit (run_job env j)) b
  serve post_start = answer answer_done Ops.start
  serve post_stop = answer answer_done Ops.stop_running
