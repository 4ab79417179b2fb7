-- ===== src/Job/Print.antt =====
-- `LastRunTimeWithTimezone`, `NextRunTimeWithTimezone` and `String` of job.go. How `fmt` prints a
-- map and how a `time.Time` prints in a time zone are arguments.
use agscheduler.Base.{String, ◌<>◌, List, [], ◌∷◌, none, some, Option, ◌≡◌, ap}
use agscheduler.Errors.{nil_location}
use agscheduler.Result.{Result, ok, panic, ◌>>=◌}
use agscheduler.Time.{Time}
use agscheduler.Env.{Env}
use agscheduler.Job.{Job}
use agscheduler.Job.Value.{Fields}

join_words : List String → String
join_words [] = ""
join_words (q ∷ []) = q
join_words (q ∷ r ∷ qs) = q <> " " <> join_words (r ∷ qs)

-- `%s` of a `[]string`
unfoldable pub show_list : List String → String
unfolding join_words
show_list qs = "[" <> join_words qs <> "]"

-- `t.In(timezone)`, which is the same instant, with the error of `LoadLocation` as the first
-- argument. The program drops that error; the location is then nil, for which `In` panics.
unfoldable pub localized : Option String → Time → Result Time
localized none t = ok t
localized (some e) t = panic nil_location

unfoldable pub in_timezone : Env → Job → Time → Result Time
in_timezone env j t = localized (env.load_location j.timezone) t

unfoldable pub last_run_time_with_timezone : Env → Job → Result Time
unfolding in_timezone
last_run_time_with_timezone env j = in_timezone env j j.last_run_time

unfoldable pub next_run_time_with_timezone : Env → Job → Result Time
unfolding in_timezone
next_run_time_with_timezone env j = in_timezone env j j.next_run_time

pub next_run_time_with_timezone_lem :
    (env : Env) (j : Job) (loaded : Option String)
    → env.load_location j.timezone ≡ loaded
    → next_run_time_with_timezone env j ≡ localized loaded j.next_run_time
unfolding next_run_time_with_timezone
next_run_time_with_timezone_lem env j loaded h = ap (λ l. localized l j.next_run_time) h

-- `'name':'value'`
quoted : (name value : String) → String
quoted name value = "'" <> name <> "':'" <> value <> "'"

join_fields : List String → String
join_fields [] = ""
join_fields (f ∷ []) = f
join_fields (f ∷ g ∷ fs) = f <> ", " <> join_fields (g ∷ fs)

module _ (env : Env) (show_args : Fields → String)
    (show_time : (timezone : String) → Time → String) where
  unfoldable pub string : Job → Result String
  unfolding show_list quoted join_fields last_run_time_with_timezone next_run_time_with_timezone
  string j = do
    last ← last_run_time_with_timezone env j
    next ← next_run_time_with_timezone env j
    ok (
        "Job{"
        <> join_fields (
            quoted "Id" j.id
            ∷ quoted "Name" j.name
            ∷ quoted "Type" j.type
            ∷ quoted "StartAt" j.start_at
            ∷ quoted "EndAt" j.end_at
            ∷ quoted "Interval" j.interval
            ∷ quoted "CronExpr" j.cron_expr
            ∷ quoted "Timezone" j.timezone
            ∷ quoted "FuncName" j.func_name
            ∷ quoted "Args" (show_args j.args)
            ∷ quoted "Timeout" j.timeout
            ∷ quoted "Queues" (show_list j.queues)
            ∷ quoted "LastRunTime" (show_time j.timezone last)
            ∷ quoted "NextRunTime" (show_time j.timezone next)
            ∷ quoted "Status" j.status
            ∷ [])
        <> "}")
