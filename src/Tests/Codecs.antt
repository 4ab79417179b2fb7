-- ===== src/Tests/Codecs.antt =====
-- An encoding for the examples: a job that is due at second 50 is its identifier, and no other job
-- can be encoded.
use agscheduler.Base.{
  ◌≡◌, refl, sym, ◌∙◌, ℕ, ◌*◌, String, Bool, true, ◌⊎◌, inl, inr, if◌then◌else◌, ◌&&◌, leb,
  Bool-cases, arith,
}
use agscheduler.Errors.{Error, external}
use agscheduler.Result.{ok}
use agscheduler.Time.{second}
use agscheduler.Job.{Job}
use agscheduler.Store.Codec.{Codec, IsGob}
use agscheduler.Tests.Samples.{once}

abbrev is_due : Job → Bool
is_due j = leb j.next_run_time (50 * second) && leb (50 * second) j.next_run_time

abbrev pub codec : Codec
codec = record {
  state_dump = λ j. if is_due j then inr j.id else inl (external "gob: type not registered");
  state_load = λ state. ok (once state);
}

is_due_time : (n : ℕ) → (leb n (50 * second) && leb (50 * second) n) ≡ true → 50 * second ≡ n
is_due_time n h = ground arith

inr_inj : {a b : String} → ◌≡◌ {A = Error ⊎ String} (inr a) (inr b) → a ≡ b
inr_inj e = cc

inl≢inr : {e : Error} {b : String} → ◌≡◌ {A = Error ⊎ String} (inl e) (inr b) → ⊥
inl≢inr h = cc

pub codec-IsGob : IsGob codec
codec-IsGob = record {
  decodes = λ j state dumped. elim (Bool-cases (is_due j)) [
    | inl h ↦
        let is : j.id ≡ state = inr_inj (sym (rw h refl) ∙ dumped) in
        (once state, refl, sym is, is_due_time j.next_run_time h)
    | inr h ↦
        let is : codec.state_dump j ≡ inl (external "gob: type not registered") = rw h refl in
        absurd (inl≢inr (sym is ∙ dumped))
  ];
}
