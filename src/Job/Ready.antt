-- ===== src/Job/Ready.antt =====
-- What holds of a job that `init` of job.go has accepted.
use Prim.Native.String.{count}
use text.Mathlib.TextLemmas.{length-nil, length-cons}
use mathlib.Core.Option
use agscheduler.Base.{
  none, ℕ, zero, suc, String, ◌≡◌, ◌≢◌, refl, sym, ap, ◌∙◌, false, test→ne, inl, inr, some, arith,
  Bool-cases, Option-cases, Sum-cases, some_inj, subst, ◌==◌, if◌then◌else◌,
}
use agscheduler.Base.Dict.{lookup}
use agscheduler.Result.{ok, ok≢err, ok≢panic, >>=-ok, ok-injective}
use agscheduler.Time.{Time, Duration}
use agscheduler.Env.{Env}
use agscheduler.Job.{Job, full_name, status_running}
use agscheduler.Job.Calc.{calc_next_run_time}
use agscheduler.Job.Init.{
  FuncMap, without_dashes, prefix, new_id, set_id, with_defaults, check_timeout, check, init,
}

pub count-prefix : (n : ℕ) (s t : String) → prefix n s ≡ some t → count t ≡ n
unfolding prefix
count-prefix zero s t h = subst (λ u. count u ≡ 0) (some_inj h) length-nil
count-prefix (suc n) String.[] t h = cc
count-prefix (suc n) (String.◌∷◌ c s) t h = elim (Option-cases (prefix n s)) [
  | inl e ↦ ground arith
  | inr (r, e) ↦
      subst (λ u. count u ≡ suc n) (some_inj (sym (ap (Option.map (String.◌∷◌ c)) e) ∙ h))
        (length-cons c r ∙ ap suc (count-prefix n s r e))
]

-- An identifier has 16 characters.
pub count-new_id : (uuid id : String) → new_id uuid ≡ some id → count id ≡ 16
unfolding new_id
count-new_id uuid id h = count-prefix 16 (without_dashes uuid) id h

set_id_ok : (uuid : String) (j named : Job) → set_id uuid j ≡ ok named → count named.id ≡ 16
unfolding set_id
set_id_ok uuid j named h = elim (Option-cases (new_id uuid)) [
  | inl e ↦ absurd (ok≢panic (rw (e, set_id) at h))
  | inr (id, e) ↦
      subst (λ k. count k.id ≡ 16) (ok-injective (rw (e, set_id) at h)) (count-new_id uuid id e)
]

id-set_id : (uuid : String) (j named : Job) → set_id uuid j ≡ ok named → new_id uuid ≡ some named.id
unfolding set_id
id-set_id uuid j named h = elim (Option-cases (new_id uuid)) [
  | inl e ↦ absurd (ok≢panic (rw (e, set_id) at h))
  | inr (id, e) ↦ e ∙ ap (λ k. some k.id) (ok-injective (rw (e, set_id) at h))
]

or_default_ne : (s d : String) → (d == "") ≡ false → (if s == "" then d else s) ≢ ""
or_default_ne s d h = elim (Bool-cases (s == "")) [
  | inl e ↦ rw e (test→ne d "" h)
  | inr e ↦ rw e (test→ne s "" e)
]

pub record IsReady (env : Env) (fs : FuncMap) (now : Time) (j : Job) : Type 0 where
  pub identified : count j.id ≡ 16
  pub running : j.status ≡ status_running
  pub zoned : j.timezone ≢ ""
  pub callable : (f : ℕ) × (lookup j.func_name fs ≡ some f)
  pub limited : (d : Duration) × (env.parse_duration j.timeout ≡ inr d)
  pub due : calc_next_run_time env now j ≡ ok j.next_run_time

module _ (env : Env) where
  -- The next and the last run time of a job play no part in computing the next one.
  pub calc-next_run_time :
      (now t : Time) (j : Job)
      → calc_next_run_time env now (record j { next_run_time = t }) ≡ calc_next_run_time env now j
  unfolding calc_next_run_time full_name
  calc-next_run_time now t j = refl

  pub calc-last_run_time :
      (now t : Time) (j : Job)
      → calc_next_run_time env now (record j { last_run_time = t }) ≡ calc_next_run_time env now j
  unfolding calc_next_run_time full_name
  calc-last_run_time now t j = refl

  pub check-last_run_time :
      (fs : FuncMap) (t : Time) (j : Job)
      → check env fs (record j { last_run_time = t }) ≡ check env fs j
  unfolding check full_name
  check-last_run_time fs t j = refl

  -- A job with a next run time has a time zone that loads.
  pub calc_zoned :
      (now t : Time) (j : Job)
      → calc_next_run_time env now j ≡ ok t
      → env.load_location j.timezone ≡ none
  unfolding calc_next_run_time
  calc_zoned now t j h = elim (Option-cases (env.load_location j.timezone)) [
    | inl e ↦ e
    | inr (m, e) ↦ absurd (ok≢err (rw (e, calc_next_run_time) at h))
  ]

  check_timeout_ok :
      (j : Job)
      → check_timeout env j ≡ ok tt
      → (d : Duration) × (env.parse_duration j.timeout ≡ inr d)
  unfolding check_timeout
  check_timeout_ok j h = elim (Sum-cases (env.parse_duration j.timeout)) [
    | inl (e, p) ↦ absurd (ok≢err (rw (p, check_timeout) at h))
    | inr found ↦ found
  ]

  pub check_ok :
      (fs : FuncMap) (j : Job)
      → check env fs j ≡ ok tt
      → ((f : ℕ) × (lookup j.func_name fs ≡ some f))
        × ((d : Duration) × (env.parse_duration j.timeout ≡ inr d))
  unfolding check
  check_ok fs j h = elim (Option-cases (lookup j.func_name fs)) [
    | inl e ↦ absurd (ok≢err (rw (e, check) at h))
    | inr (f, e) ↦ ((f, e), check_timeout_ok j (rw (e, check) at h))
  ]

  -- A job that `init` returns has an identifier of 16 characters, the status "running", a time
  -- zone that is not empty, a function that is registered, a timeout that parses, and as its next
  -- run time what `CalcNextRunTime` computes for it at that reading of the clock.
  pub init-IsReady :
      (fs : FuncMap) (uuid : String) (now : Time) (j r : Job)
      → init env fs uuid now j ≡ ok r
      → IsReady env fs now r
  unfolding init
  init-IsReady fs uuid now j r h =
      let (named, h₁, set) = >>=-ok _ (set_id uuid j) h in
      let full = with_defaults env named in
      let (next, h₂, calc) = >>=-ok _ (calc_next_run_time env now full) h₁ in
      let timed = record full { next_run_time = next } in
      let (u, h₃, checked) = >>=-ok _ (check env fs timed) h₂ in
      subst (IsReady env fs now) (ok-injective h₃) (record {
        identified = set_id_ok uuid j named set;
        running = refl;
        zoned = or_default_ne named.timezone "UTC" refl;
        callable = (check_ok fs timed checked).0;
        limited = (check_ok fs timed checked).1;
        due = calc-next_run_time now next full ∙ calc;
      })

  -- So it has one.
  pub init_named :
      (fs : FuncMap) (uuid : String) (now : Time) (j r : Job)
      → init env fs uuid now j ≡ ok r
      → r.id ≢ ""
  init_named fs uuid now j r h unnamed =
      let long = (init-IsReady fs uuid now j r h).identified in
      omega (arith, sym long ∙ ap count unnamed ∙ length-nil)

  -- The identifier is that of the uuid.
  pub id-init :
      (fs : FuncMap) (uuid : String) (now : Time) (j r : Job)
      → init env fs uuid now j ≡ ok r
      → new_id uuid ≡ some r.id
  unfolding init with_defaults
  id-init fs uuid now j r h =
      let (named, h₁, set) = >>=-ok _ (set_id uuid j) h in
      let full = with_defaults env named in
      let (next, h₂, calc) = >>=-ok _ (calc_next_run_time env now full) h₁ in
      let timed = record full { next_run_time = next } in
      let (u, h₃, checked) = >>=-ok _ (check env fs timed) h₂ in
      id-set_id uuid j named set ∙ ap (λ (k : Job). some k.id) (ok-injective h₃)
