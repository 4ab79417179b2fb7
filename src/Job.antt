-- ===== src/Job.antt =====
-- job.go: the record of a job, its identifier, its checks and its defaults.
pub mod Equality
pub mod Value
pub mod Calc
pub mod Init
pub mod Print
pub mod Progress
pub mod Proto
pub mod Ready
use agscheduler.Base.{ℕ, String, ◌<>◌, Bool, List, []}
use agscheduler.Time.{Time, zero_time, before}
use Value.{Fields, no_fields}

abbrev pub type_datetime : String
type_datetime = "datetime"

abbrev pub type_interval : String
type_interval = "interval"

abbrev pub type_cron : String
type_cron = "cron"

abbrev pub status_running : String
status_running = "running"

abbrev pub status_paused : String
status_paused = "paused"

pub record Job : Type 0 where
  pub id : String
  pub name : String
  pub type : String
  pub start_at : String
  pub end_at : String
  pub interval : String
  pub cron_expr : String
  pub timezone : String
  pub func : ℕ  -- the code pointer, 0 for nil
  pub func_name : String
  pub args : Fields
  pub timeout : String
  pub queues : List String
  pub last_run_time : Time
  pub next_run_time : Time
  pub status : String

-- `Job{}`
abbrev pub zero_job : Job
zero_job = record {
  id = "";
  name = "";
  type = "";
  start_at = "";
  end_at = "";
  interval = "";
  cron_expr = "";
  timezone = "";
  func = 0;
  func_name = "";
  args = no_fields;
  timeout = "";
  queues = [];
  last_run_time = zero_time;
  next_run_time = zero_time;
  status = "";
}

-- `FullName`
unfoldable pub full_name : Job → String
full_name j = j.id <> ":" <> j.name

-- `JobSlice.Less` on two elements.
abbrev pub less : Job → Job → Bool
less a b = before a.next_run_time b.next_run_time
