-- ===== src/Scheduler/Calling.antt =====
-- The goroutines that `_runJob` of scheduler.go starts: one calls the function of the job, the other
-- waits for it until the timeout. What the function does is an argument.
use agscheduler.Base.{
  bit, ◌+◌, ◌≤◌, ◌≡◌, arith, String, ◌<>◌, Bool, true, false, Option, none, some, List, [], ◌∷◌,
  ◌++◌, inl, inr, length, length-append,
}
use agscheduler.Errors.{job_timeout, text}
use agscheduler.Job.{Job, full_name}
use agscheduler.Env.{Env}

-- How the call of the function ends: it returns, with the text of an error or without one, or it
-- panics with a value that prints as the text.
pub data Ending : Type 0 where
  returned : Option String → Ending
  panicked : String → Ending

-- A report is one message, passed to `sendEmail` and `httpCallback`.
pub record Call : Type 0 where
  pub calling : Bool  -- the function has not ended, and `ch` is open
  pub waiting : Bool  -- the outer goroutine is in its `select`
  pub reports : List String

-- The outer goroutine, up to its `select`.
unfoldable pub begin : Env → Job → Call
begin env j = elim (env.parse_duration j.timeout) [
  | inl e ↦ record {
    calling = false;
    waiting = false;
    reports = text (job_timeout (full_name j) j.timeout e) ∷ [];
  }
  | inr d ↦ record { calling = true; waiting = true; reports = [] }
]

unfoldable pub ending_reports : Job → Ending → List String
ending_reports j (returned none) = []
ending_reports j (returned (some e)) = e ∷ []
ending_reports j (panicked e) = ("Job `" <> full_name j <> "` run error: " <> e <> "\n") ∷ []

-- The end of the inner goroutine, which closes `ch` after its report.
unfoldable pub finish : Job → Ending → Call → Call
unfolding ending_reports
finish j e c = record c { calling = false; reports = c.reports ++ ending_reports j e }

-- `case <-ch`
unfoldable pub leave : Call → Call
leave c = record c { waiting = false }

-- `case <-ctx.Done()`
unfoldable pub expire : Call → Call
expire c = record c { waiting = false; reports = c.reports ++ "Job run timeout" ∷ [] }

pub data Step (j : Job) : Call → Call → Type 0 where
  finishing : (e : Ending) → (c : Call) → c.calling ≡ true → Step j c (finish j e c)
  leaving : (c : Call) → c.calling ≡ false → c.waiting ≡ true → Step j c (leave c)
  expiring : (c : Call) → c.waiting ≡ true → Step j c (expire c)

pub data Reach (env : Env) (j : Job) : Call → Type 0 where
  begun : Reach env j (begin env j)
  after : {c d : Call} → Reach env j c → Step j c d → Reach env j d

-- One report is left for a goroutine that has not ended.
abbrev IsSparing : Call → Type 0
IsSparing c = length c.reports + (bit c.calling + bit c.waiting) ≤ 2

begin-IsSparing : (env : Env) (j : Job) → IsSparing (begin env j)
unfolding begin
begin-IsSparing env j = ground arith

ending_reports-length : (j : Job) (e : Ending) → length (ending_reports j e) ≤ 1
unfolding ending_reports
ending_reports-length j (returned none) = omega arith
ending_reports-length j (returned (some e)) = omega arith
ending_reports-length j (panicked e) = omega arith

Step-IsSparing : (j : Job) {c d : Call} → Step j c d → IsSparing c → IsSparing d
unfolding finish leave expire
Step-IsSparing j (finishing e c running) h =
    ground (arith, ending_reports-length j e, length-append c.reports (ending_reports j e))
Step-IsSparing j (leaving c done waits) h = ground arith
Step-IsSparing j (expiring c waits) h =
    ground (arith, length-append c.reports ("Job run timeout" ∷ []))

Reach-IsSparing : (env : Env) (j : Job) {c : Call} → Reach env j c → IsSparing c
Reach-IsSparing env j begun = begin-IsSparing env j
Reach-IsSparing env j (after r s) = Step-IsSparing j s (Reach-IsSparing env j r)

-- However the end of a job's function, its timeout and the goroutines of `_runJob` interleave, one
-- run of the job sends at most two reports, and at most one while the function is still running.
pub reports_at_most_two :
    (env : Env) (j : Job) (c : Call)
    → Reach env j c
    → (length c.reports ≤ 2) × (c.calling ≡ true → length c.reports ≤ 1)
reports_at_most_two env j c r =
    let h = Reach-IsSparing env j r in (omega (arith, h), λ running. ground (arith, h))
