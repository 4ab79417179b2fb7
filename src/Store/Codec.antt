-- ===== src/Store/Codec.antt =====
-- `StateDump` and `StateLoad` of job.go over `encoding/gob`, and what the stores over a database
-- share: the pair of them as the argument `Codec`, and the loops that decode every stored job.
use agscheduler.Base.{
  refl, sym, ◌∙◌, subst, Sum-cases, ◌≡◌, String, Option, none, some, List, [], ◌∷◌, ◌⊎◌, inl, inr,
}
use agscheduler.Errors.{Error}
use agscheduler.Result.{Result, ok, err, panic}
use agscheduler.Job.{Job}
use agscheduler.Store.{Slice, fresh}

pub record Codec : Type 0 where
  pub state_dump : Job → Error ⊎ String
  pub state_load : String → Result Job

-- `encoding/gob` on a job: `Encode` into a buffer, and `Decode` from one.
pub record Gob : Type 0 where
  pub encode : Job → Error ⊎ String
  pub decode : String → Error ⊎ Job

unfoldable pub state_dump : Gob → Job → Error ⊎ String
state_dump gob j = elim (gob.encode j) [ inl e ↦ inl e | inr bytes ↦ inr bytes ]

unfoldable pub state_load : Gob → String → Result Job
state_load gob state = elim (gob.decode state) [ inl e ↦ err e | inr j ↦ ok j ]

abbrev pub gob_codec : Gob → Codec
gob_codec gob = record { state_dump = state_dump gob; state_load = state_load gob }

-- An error of a database call, as the method that made the call returns it.
abbrev pub nil_or : Option Error → Result (Unit {0})
nil_or none = ok tt
nil_or (some e) = err e

-- Decodes every state; the first that fails ends the loop.
unfoldable pub load_all : Codec → List String → Result (List Job)
load_all codec [] = ok []
load_all codec (state ∷ rest) =
    let later = load_all codec rest in
    elim (codec.state_load state) [
      | err e ↦ err e
      | panic p ↦ panic p
      | ok j ↦ elim later [ err e ↦ err e | panic p ↦ panic p | ok js ↦ ok (j ∷ js) ]
    ]

unfoldable pub load_states : Codec → Error ⊎ List String → Result Slice
unfolding load_all
load_states codec (inl e) = err e
load_states codec (inr states) = elim (load_all codec states) [
  | ok js ↦ ok (fresh js)
  | err e ↦ err e
  | panic p ↦ panic p
]

unfoldable pub loaded : Result Job → Option Job
loaded (ok j) = some j
loaded (err e) = none
loaded (panic p) = none

-- What a database keeps of a job: what is decoded from its encoding.
unfoldable pub kept_state : Codec → Error ⊎ String → Option Job
unfolding loaded
kept_state codec (inl e) = none
kept_state codec (inr state) = loaded (codec.state_load state)

abbrev pub kept : Codec → Job → Option Job
kept codec j = kept_state codec (codec.state_dump j)

-- gob documents that a value decodes to its exported fields; a job decodes without its function.
pub record IsGob (codec : Codec) : Type 0 where
  pub decodes :
      (j : Job) (state : String)
      → codec.state_dump j ≡ inr state
      → (k : Job) × (codec.state_load state ≡ ok k)
        × (k.id ≡ j.id)
        × (k.next_run_time ≡ j.next_run_time)

inr_inj : {a b : String} → ◌≡◌ {A = Error ⊎ String} (inr a) (inr b) → a ≡ b
inr_inj e = cc

inl≢inr : {e : Error} {b : String} → ◌≡◌ {A = Error ⊎ String} (inl e) (inr b) → ⊥
inl≢inr h = cc

-- So it is where gob decodes what it encoded to its exported fields.
gob_codec-IsGob :
    (gob : Gob)
    → ((j : Job) (bytes : String)
        → gob.encode j ≡ inr bytes
        → (k : Job) × (gob.decode bytes ≡ inr k)
          × (k.id ≡ j.id)
          × (k.next_run_time ≡ j.next_run_time))
    → IsGob (gob_codec gob)
unfolding state_dump state_load
gob_codec-IsGob gob exported = record {
  decodes = λ j state dumped. elim (Sum-cases (gob.encode j)) [
    | inl (e, h) ↦
        let was : state_dump gob j ≡ inl e = rw (h, state_dump) refl in
        absurd (inl≢inr (sym was ∙ dumped))
    | inr (bytes, h) ↦
        let (k, decoded, same, timed) = exported j bytes h in
        let was : state_dump gob j ≡ inr bytes = rw (h, state_dump) refl in
        let is : bytes ≡ state = inr_inj (sym was ∙ dumped) in
        (k, subst (λ s. state_load gob s ≡ ok k) is (rw (decoded, state_load) refl), same, timed)
  ];
}
