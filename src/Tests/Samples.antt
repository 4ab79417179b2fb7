-- ===== src/Tests/Samples.antt =====
-- An outside with fixed answers, and jobs over it.
use agscheduler.Base.{
  ◌+◌, ◌*◌, String, none, some, inl, inr, List, [], ◌∷◌, if◌then◌else◌, ◌==◌, true, false,
}
use agscheduler.Base.Int.{pos}
use agscheduler.Time.{second, before}
use agscheduler.Job.{Job, zero_job, status_running}
use agscheduler.Job.Calc.{paused_date}
use agscheduler.Job.Init.{FuncMap}
use agscheduler.Env.{Env}
use agscheduler.Scheduler.{World, armed}

unfoldable pub place_job : Job → List Job → List Job
place_job j [] = j ∷ []
place_job j (k ∷ ks) =
    let later = place_job j ks in
    if before k.next_run_time j.next_run_time then k ∷ later else j ∷ k ∷ ks

-- A sorting function.
unfoldable pub sorted : List Job → List Job
unfolding place_job
sorted [] = []
sorted (j ∷ js) = place_job j (sorted js)

-- The clock advances a second with each reading. "past" is a date that lies behind it.
abbrev pub env : Env
env = record {
  clock = λ n. (100 + n) * second;
  uuid = λ n. "01234567-89ab-cdef-0123-456789abcdef";
  draw = λ n k. 0;
  load_location = λ z. none;
  parse_date = λ v z.
      if v == "past"
      then inr (50 * second)
      else if v == paused_date
      then inr (9000 * second)
      else inl "bad date";
  parse_duration = λ d. if d == "" then inl "empty" else inr (pos (60 * second));
  cron_next = λ e z t. some (t + 60 * second);
  to_lower = λ s. if s == "DateTime" then "datetime" else s;
  func_name = λ f. "main.f";
  sort = sorted;
}

abbrev pub funcs : FuncMap
funcs = ("main.f", 7) ∷ []

-- A job that runs every minute, due at second 90.
abbrev pub every_minute : Job
every_minute = record zero_job {
  id = "m";
  type = "interval";
  interval = "60s";
  timezone = "UTC";
  func_name = "main.f";
  timeout = "1h";
  next_run_time = 90 * second;
  status = status_running;
}

-- One-off jobs for the date "past".
abbrev pub once : String → Job
once i = record zero_job {
  id = i;
  type = "datetime";
  start_at = "past";
  timezone = "UTC";
  func_name = "main.f";
  timeout = "1h";
  next_run_time = 50 * second;
  status = status_running;
}

-- A scheduler that is not started, in standalone mode.
abbrev pub idle : {S : Type 0} → S → World S
idle s = record {
  store = s;
  timer = none;
  quits = 0;
  loops = 0;
  is_running = false;
  cluster_node = none;
  func_map = funcs;
  clock_reads = 0;
  uuids = 0;
  draws = 0;
  events = [];
}

abbrev pub running : {S : Type 0} → S → World S
running s = record (idle s) { timer = some (armed 0); loops = 1; is_running = true }
