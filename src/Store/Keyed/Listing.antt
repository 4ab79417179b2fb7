-- ===== src/Store/Keyed/Listing.antt =====
-- `GetAllJobs` of the stores that keep one encoded job for each identifier.
use agscheduler.Base.{
  ◌≡◌, refl, sym, ap, ◌∙◌, subst, String, Option, none, some, List, [], ◌∷◌, map, inl, inr, ◌==◌,
  eq_refl, Bool-cases, some_inj, some≢none,
}
use agscheduler.Base.Dict.{Dict, lookup, Unique, lookup_in_tail}
use agscheduler.Result.{ok}
use agscheduler.Job.{Job}
use agscheduler.Store.{Store, fresh}
use agscheduler.Store.Codec.{Codec, load_all, load_states, loaded}
use agscheduler.Store.Listing.{IsListOf, IsListing}
use agscheduler.Store.Memory.{find_job}
use agscheduler.Store.Keyed.{Entry, shown, IsStored, view}

-- The encoded job of an entry.
abbrev pub state_at : Option Entry → Option String
state_at none = none
state_at (some e) = some e.state

abbrev pub state_in : {V : Type 0} → (V → String) → Option V → Option String
state_in state none = none
state_in state (some v) = some (state v)

-- The rows that a store lists are its entries, each once, and it decodes their states.
pub record IsListed {S V : Type 0} (docs : S → String → Option Entry) (Good : S → Type 0)
    (state : V → String) (codec : Codec) (store : Store S) : Type 0 where
  pub rows :
      (s : S)
      → Good s
      → (m : Dict V) × Unique m
        × (store.get_all_jobs s ≡ load_states codec (inr (map (λ r. state r.1) m)))
        × ((i : String) → state_in state (lookup i m) ≡ state_at (docs s i))

module _ (codec : Codec) where
  shown_state : Option String → Option Job
  shown_state none = none
  shown_state (some state) = loaded (codec.state_load state)

  shown_state-state_at : (o : Option Entry) → shown_state (state_at o) ≡ shown codec o
  unfolding shown_state shown
  shown_state-state_at none = refl
  shown_state-state_at (some e) = refl

  -- Every row decodes to a job with its key.
  abbrev IsDecoded : {V : Type 0} → (V → String) → Dict V → Type 0
  IsDecoded {V} state m =
      (i : String) (v : V)
      → lookup i m ≡ some v
      → (j : Job) × (codec.state_load (state v) ≡ ok j) × (j.id ≡ i)

  module _ {V : Type 0} (state : V → String) where
    find_decoded :
        (k i : String) (v : V) (rest : Dict V) (j : Job) (js : List Job)
        → codec.state_load (state v) ≡ ok j
        → j.id ≡ k
        → find_job i js ≡ shown_state (state_in state (lookup i rest))
        → find_job i (j ∷ js) ≡ shown_state (state_in state (lookup i ((k, v) ∷ rest)))
    unfolding find_job lookup shown_state loaded
    find_decoded k i v rest j js loads named later =
        let same : (j.id == i) ≡ (k == i) = ap (λ y. y == i) named in
        elim (Bool-cases (k == i)) [ inl h ↦ rw (same, h, loads) refl | inr h ↦ rw (same, h) later ]

    load_all-IsListOf :
        (m : Dict V)
        → Unique m
        → IsDecoded state m
        → (js : List Job) × (load_all codec (map (λ r. state r.1) m) ≡ ok js)
          × IsListOf (λ i. shown_state (state_in state (lookup i m))) js
    unfolding load_all lookup find_job shown_state
    load_all-IsListOf [] u decoded = ([], refl, record { distinct = tt; finds = λ i. refl })
    load_all-IsListOf ((k, v) ∷ rest) u decoded =
        let (j, loads, named) = decoded k v (rw (eq_refl k) refl) in
        let (js, later, l) =
          load_all-IsListOf rest u.1
            (λ i x found. decoded i x (lookup_in_tail i k v x rest u.0 found)) in
        (
          j ∷ js,
          rw (loads, later) refl,
          record {
            distinct = (
              l.finds j.id
                  ∙ ap (λ i. shown_state (state_in state (lookup i rest))) named
                  ∙ ap (λ o. shown_state (state_in state o)) u.0,
              l.distinct,
            );
            finds = λ i. find_decoded k i v rest j js loads named (l.finds i);
          },
        )

state_at-some :
    (o : Option Entry) (x : String)
    → some x ≡ state_at o
    → (e : Entry) × (o ≡ some e) × (e.state ≡ x)
state_at-some none x h = absurd (some≢none h)
state_at-some (some e) x h = (e, refl, sym (some_inj h))

load_states-ok :
    (codec : Codec) (states : List String) (js : List Job)
    → load_all codec states ≡ ok js
    → load_states codec (inr states) ≡ ok (fresh js)
unfolding load_states
load_states-ok codec states js h = rw (h, load_states) refl

module _ {S V : Type 0} {docs : S → String → Option Entry} {Good : S → Type 0} {state : V → String}
    {codec : Codec} {store : Store S} where
  -- A store that lists its entries lists the jobs that they decode to.
  pub keyed-IsListing :
      IsListed docs Good state codec store
      → IsListing (IsStored docs Good codec) (view docs Good codec) store
  keyed-IsListing listed = record {
    lists = λ s v.
        let (m, unique, found, same) = listed.rows s v.good in
        let (js, loads, l) = load_all-IsListOf codec state m unique (λ i x at.
          let (e, held, is) =
            state_at-some (docs s i) (state x) (sym (ap (state_in state) at) ∙ same i) in
          let d = v.decodes i e held in
          (d.job, subst (λ y. codec.state_load y ≡ ok d.job) is d.loads, d.named)) in
        (
          js,
          found ∙ load_states-ok codec _ js loads,
          record {
            distinct = l.distinct;
            finds = λ i.
                l.finds i ∙ ap (shown_state codec) (same i) ∙ shown_state-state_at codec (docs s i);
          },
        );
  }
