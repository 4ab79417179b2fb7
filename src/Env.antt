-- ===== src/Env.antt =====
-- What the program takes from outside its source: the clock, random numbers, Go's standard library
-- and the cron parser. Each definition that uses one takes the record as an argument; a theorem
-- that relies on documented behaviour has it as a named hypothesis.
use agscheduler.Base.{ℕ, String, Option, List, ◌⊎◌}
use agscheduler.Time.{Time, Duration}
use agscheduler.Job.{Job}

pub record Env : Type 0 where
  pub clock : ℕ → Time  -- the n-th reading of `time.Now()`
  pub uuid : ℕ → String  -- the n-th `uuid.New().String()`
  pub draw : ℕ → ℕ → ℕ  -- the n-th `rand.Intn`, and its bound
  pub load_location : String → Option String  -- the error of `time.LoadLocation`
  -- `time.ParseInLocation(time.DateTime, value, location)`
  pub parse_date : (value location : String) → String ⊎ Time
  pub parse_duration : String → String ⊎ Duration  -- `time.ParseDuration`
  -- `cronexpr.MustParse(expr).Next(now.In(location))`, `none` where `MustParse` panics
  pub cron_next : (expr location : String) → Time → Option Time
  pub to_lower : String → String  -- `strings.ToLower`
  pub func_name : ℕ → String  -- `runtime.FuncForPC(…).Name()` at a code pointer
  pub sort : List Job → List Job  -- `sort.Sort(JobSlice(js))`
