-- ===== src/Job/Init.antt =====
-- `setId`, `check`, `init`, `getFuncName` and `RegisterFuncs` of job.go.
use Prim.Native.Char.{code}
use Prim.Native.Nat.{compare, Ordering}
use agscheduler.Base.{
  ℕ, zero, suc, String, Option, none, some, List, [], ◌∷◌, inl, inr, if◌then◌else◌, ◌==◌,
}
use mathlib.Core.Option
use agscheduler.Base.Dict.{Dict, lookup, insert}
use agscheduler.Errors.{func_unregistered, job_timeout, slice_bounds}
use agscheduler.Result.{Result, ok, err, panic, ◌>>=◌, ◌>>◌}
use agscheduler.Time.{Time}
use agscheduler.Env.{Env}
use agscheduler.Job.{Job, full_name, status_running}
use agscheduler.Job.Calc.{calc_next_run_time}

-- `funcMap`: registered names with their code pointers.
abbrev pub FuncMap : Type 0
FuncMap = Dict ℕ

-- `strings.Replace(s, "-", "", -1)`
unfoldable pub without_dashes : String → String
without_dashes String.[] = String.[]
without_dashes (String.◌∷◌ c s) = elim (compare (code c) b'-') [
  | Ordering.eq ↦ without_dashes s
  | _ ↦ String.◌∷◌ c (without_dashes s)
]

-- `s[:n]`, on a text of one byte to a character; `none` where Go panics.
unfoldable pub prefix : ℕ → String → Option String
prefix zero s = some ""
prefix (suc n) String.[] = none
prefix (suc n) (String.◌∷◌ c s) = Option.map (String.◌∷◌ c) (prefix n s)

-- `strings.Replace(uuid.New().String(), "-", "", -1)[:16]`, also of cluster nodes.
unfoldable pub new_id : String → Option String
unfolding without_dashes prefix
new_id uuid = prefix 16 (without_dashes uuid)

unfoldable pub set_id : String → Job → Result Job
unfolding new_id
set_id uuid j = elim (new_id uuid) [
  | none ↦ panic slice_bounds
  | some id ↦ ok (record j { id = id })
]

module _ (env : Env) where
  open env use {parse_duration, func_name}

  -- What `init` fills in before it computes the next run time.
  unfoldable pub with_defaults : Job → Job
  with_defaults j = record j {
    status = status_running;
    timezone = if j.timezone == "" then "UTC" else j.timezone;
    func_name = if j.func_name == "" then func_name j.func else j.func_name;
    timeout = if j.timeout == "" then "1h" else j.timeout;
  }

  unfoldable pub check_timeout : Job → Result (Unit {0})
  check_timeout j = elim (parse_duration j.timeout) [
    | inl e ↦ err (job_timeout (full_name j) j.timeout e)
    | inr d ↦ ok tt
  ]

  unfoldable pub check : FuncMap → Job → Result (Unit {0})
  unfolding check_timeout
  check fs j = elim (lookup j.func_name fs) [
    | none ↦ err (func_unregistered j.func_name)
    | some f ↦ check_timeout j
  ]

  -- `uuid` and `now` are what `uuid.New` and `time.Now` return in this call.
  unfoldable pub init : FuncMap → (uuid : String) → (now : Time) → Job → Result Job
  unfolding set_id with_defaults
  init fs uuid now j = do
    named ← set_id uuid j
    let full = with_defaults named
    next ← calc_next_run_time env now full
    let timed = record full { next_run_time = next }
    check fs timed
    ok timed

  -- `RegisterFuncs`
  unfoldable pub register_funcs : List ℕ → FuncMap → FuncMap
  register_funcs [] fs = fs
  register_funcs (f ∷ rest) fs = register_funcs rest (insert (func_name f) f fs)
