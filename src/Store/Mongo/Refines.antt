-- ===== src/Store/Mongo/Refines.antt =====
-- stores/mongodb.go against interface.go, over a database that does what the driver documents.
use agscheduler.Base.{
  ◌≤◌, some≢none, some_inj, subst, ◌≡◌, refl, ap, ◌∙◌, sym, String, Option, none, some, ◌⊎◌, inl,
  inr, if◌then◌else◌, ◌==◌, Option-cases, Bool-cases,
}
use agscheduler.Base.Int.{ℤ, IsAtMost}
use agscheduler.Errors.{Error}
use agscheduler.Result.{ok, err}
use agscheduler.Time.{
  Time, unix, from_unix, from_unix_mono, from_unix-unix, whole_seconds, whole_seconds_le,
}
use agscheduler.Store.Contract.{AddsAny, IsMap}
use agscheduler.Store.Codec.{Codec, kept, IsGob, nil_or}
use agscheduler.Store.Keyed.Refines.{keyed-IsMap, keyed-AddsAny}
use agscheduler.Store.Keyed.{Entry, Leaves, read_entry, Writes, AddsKeyed, IsKeyed, IsStored, view}
use agscheduler.Store.Mongo.{
  Fields, Found, no_documents, document, Driver, MongoStore, no_documents_error, found_error,
  fields_of, on_coll, delete_job, delete_all_jobs, first_time, get_next_run_time, insert_state,
  add_job, replace_call, replace_state, update_job, read_found, get_job, mongo_store,
}

-- A document that the store wrote: its seconds and its state.
pub record Written : Type 0 where
  pub seconds : ℤ
  pub state : String

abbrev pub fields_again : Written → Fields
fields_again d = record { next_run_time = some d.seconds; state = some d.state }

abbrev pub found_again : Option Written → Found
found_again none = no_documents
found_again (some d) = document (fields_again d)

-- What the driver documents of its calls on a collection that only the store writes, in a database
-- that answers (`Ready`): `_id` is unique, and a document is found as it was written.
pub record IsMongo {D H : Type 0} (driver : Driver D H) (Ready : D → H → Type 0)
    (held : D → H → String → Option Written) : Type 0 where
  pub finds :
      (d : D) (coll : H) (i : String)
      → Ready d coll
      → driver.find_one coll i d ≡ found_again (held d coll i)
  pub inserts :
      (d : D) (coll : H) (id state : String) (n : ℤ)
      → Ready d coll
      → held d coll id ≡ none
      → Leaves Ready held coll
          (driver.insert_one coll id (record { next_run_time = some n; state = some state }) d)
          (λ i. if id == i then some (record { seconds = n; state = state }) else held d coll i)
  pub replaces :
      (d : D) (coll : H) (id state : String) (n : ℤ) (x : Written)
      → Ready d coll
      → held d coll id ≡ some x
      → let (found, d') =
          driver.find_one_and_replace coll id
            (record { next_run_time = some n; state = some state })
            d in
        Leaves Ready held coll
          (found_error found, d')
          (λ i. if id == i then some (record { seconds = n; state = state }) else held d coll i)
  pub deletes :
      (d : D) (coll : H) (id : String)
      → Ready d coll
      → Leaves Ready held coll
          (driver.delete_one coll id d)
          (λ i. if id == i then none else held d coll i)
  pub empties :
      (d : D) (coll : H)
      → Ready d coll
      → Leaves Ready held coll (driver.delete_many coll d) (λ i. none)
  pub orders :
      (d : D) (coll : H)
      → Ready d coll
      → ((driver.find_first coll d ≡ no_documents) × ((i : String) → held d coll i ≡ none))
        ⊎ ((x : Written) × (driver.find_first coll d ≡ document (fields_again x))
            × ((i : String) × (held d coll i ≡ some x))
            × ((i : String) (y : Written) → held d coll i ≡ some y → IsAtMost x.seconds y.seconds))

abbrev pub entry_of : Option Written → Option Entry
entry_of none = none
entry_of (some d) = some (record { time = from_unix d.seconds; state = d.state })

abbrev pub docs :
    {D H : Type 0} → (D → H → String → Option Written) → MongoStore D H → String → Option Entry
docs held s i = entry_of (held s.db s.coll i)

abbrev pub Good : {D H : Type 0} → (D → H → Type 0) → MongoStore D H → Type 0
Good Ready s = Ready s.db s.coll

entry_of-if :
    (id i : String) (x : Written) (o : Option Written)
    → entry_of (if id == i then some x else o) ≡ (if id == i then entry_of (some x) else entry_of o)
entry_of-if id i x o = elim (Bool-cases (id == i)) [ inl h ↦ rw h refl | inr h ↦ rw h refl ]

entry_of-unless :
    (id i : String) (o : Option Written)
    → entry_of (if id == i then none else o) ≡ (if id == i then none else entry_of o)
entry_of-unless id i o = elim (Bool-cases (id == i)) [ inl h ↦ rw h refl | inr h ↦ rw h refl ]

entry_of-none : (o : Option Written) → entry_of o ≡ none → o ≡ none
entry_of-none none h = refl
entry_of-none (some x) h = absurd (some≢none h)

entry_of-some :
    (o : Option Written) (e : Entry) → entry_of o ≡ some e → (x : Written) × (o ≡ some x)
entry_of-some none e h = absurd (some≢none (sym h))
entry_of-some (some x) e h = (x, refl)

module _ {D H : Type 0} {driver : Driver D H} {Ready : D → H → Type 0}
    {held : D → H → String → Option Written} (mongo : IsMongo driver Ready held) where
  on_coll-Writes :
      (call : H → D → Option Error × D) (s : MongoStore D H) (left : String → Option Written)
      (new : String → Option Entry)
      → Leaves Ready held s.coll (call s.coll s.db) left
      → ((i : String) → entry_of (left i) ≡ new i)
      → Writes (docs held) (Good Ready) (on_coll call s) new
  unfolding on_coll
  on_coll-Writes call s left new leaves is = record {
    done = ap nil_or leaves.fine;
    good = leaves.ready;
    entries = λ i. ap entry_of (leaves.holds i) ∙ is i;
  }

  mongo_store-AddsKeyed :
      (codec : Codec)
      → AddsKeyed (docs held) (Good Ready) codec whole_seconds (mongo_store driver codec)
  unfolding add_job insert_state
  mongo_store-AddsKeyed codec s j state ready fresh dumped =
      let none_held = entry_of-none (held s.db s.coll j.id) fresh in
      rw dumped (
        on_coll-Writes (λ coll. driver.insert_one coll j.id (fields_of j state)) s _ _
          (mongo.inserts s.db s.coll j.id state (unix j.next_run_time) ready none_held)
          (λ i. entry_of-if j.id i _ _ ∙ rw (from_unix-unix j.next_run_time) refl))

  mongo_store-IsKeyed :
      (codec : Codec)
      → IsKeyed (docs held) (Good Ready) codec whole_seconds (mongo_store driver codec)
  unfolding get_job read_found read_entry add_job insert_state update_job replace_state delete_job
      delete_all_jobs
  mongo_store-IsKeyed codec = record {
    get = λ s i ready.
        ap (read_found driver codec i) (mongo.finds s.db s.coll i ready)
        ∙ elim (Option-cases (held s.db s.coll i)) [ inl h ↦ rw h refl | inr (x, h) ↦ rw h refl ];
    add = λ s j state ready named. mongo_store-AddsKeyed codec s j state ready;
    update = λ s j x state ready found dumped.
        let (y, one_held) = entry_of-some (held s.db s.coll j.id) x found in
        rw dumped (
          on_coll-Writes (replace_call driver codec j state) s _ _
            (mongo.replaces s.db s.coll j.id state (unix j.next_run_time) y ready one_held)
            (λ i. entry_of-if j.id i _ _ ∙ rw (from_unix-unix j.next_run_time) refl));
    refuse_new = λ s j e dumped. rw dumped refl;
    refuse = λ s j e dumped. rw dumped refl;
    delete = λ s id ready.
        on_coll-Writes (λ coll. driver.delete_one coll id) s _ _
          (mongo.deletes s.db s.coll id ready) (λ i. entry_of-unless id i _);
    delete_all = λ s ready.
        on_coll-Writes driver.delete_many s _ _ (mongo.empties s.db s.coll ready) (λ i. refl);
  }

  -- Over a database that answers and does what the MongoDB driver documents, with an encoding that
  -- keeps the identifier and the next run time of every job that it can encode: where every
  -- document decodes to a job of that identifier that runs no earlier than its seconds say,
  -- getting, adding, updating and deleting a job and deleting all jobs act as on a map from
  -- identifiers to what decodes from the encoded job, keep that state, and refuse a job that
  -- cannot be encoded; a job without an identifier can be added as well.
  pub mongo_store-IsMap :
      (codec : Codec)
      → IsGob codec
      → IsMap
          (IsStored (docs held) (Good Ready) codec)
          (view (docs held) (Good Ready) codec)
          (kept codec)
          (mongo_store driver codec)
        × AddsAny
            (IsStored (docs held) (Good Ready) codec)
            (view (docs held) (Good Ready) codec)
            (kept codec)
            (mongo_store driver codec)
  mongo_store-IsMap codec gob =
      let keyed = mongo_store-IsKeyed codec in
      (
        keyed-IsMap (docs held) (Good Ready) codec gob whole_seconds whole_seconds_le
            (mongo_store driver codec) keyed,
        keyed-AddsAny (docs held) (Good Ready) codec gob whole_seconds whole_seconds_le
            (mongo_store driver codec) keyed (mongo_store-AddsKeyed codec),
      )

  column_le :
      (s : MongoStore D H) (x : Written)
      → ((i : String) (y : Written) → held s.db s.coll i ≡ some y → IsAtMost x.seconds y.seconds)
      → (i : String) (e : Entry) → docs held s i ≡ some e
      → from_unix x.seconds ≤ e.time
  column_le s x least i e found =
      let (y, one_held) = entry_of-some (held s.db s.coll i) e found in
      let at : from_unix y.seconds ≡ e.time =
        ap (λ (o : Entry). o.time) (some_inj (sym (ap entry_of one_held) ∙ found)) in
      subst (λ t. from_unix x.seconds ≤ t) at
        (from_unix_mono x.seconds y.seconds (least i y one_held))

  -- Over a database that answers and does what the MongoDB driver documents, `GetNextRunTime`
  -- reports the error `mongo.ErrNoDocuments` where the collection holds no document, and where it
  -- holds one, gives the time of one of its documents, which is no later than that of any.
  pub next_run_time_lem :
      (s : MongoStore D H)
      → Ready s.db s.coll
      → (((i : String) → docs held s i ≡ none)
          → get_next_run_time driver s ≡ err no_documents_error)
        × ((k : String) (x : Entry)
            → docs held s k ≡ some x
            → (t : Time) × (get_next_run_time driver s ≡ ok t)
              × ((i : String) × (e : Entry) × (docs held s i ≡ some e) × (e.time ≡ t))
              × ((i : String) (e : Entry) → docs held s i ≡ some e → t ≤ e.time))
  unfolding get_next_run_time first_time
  next_run_time_lem s ready = elim (mongo.orders s.db s.coll ready) [
    | inl (first, empty) ↦ (
      λ none_stored. rw first refl,
      λ k x stored. absurd (some≢none (sym stored ∙ ap entry_of (empty k))),
    )
    | inr (x, first, (i, here), least) ↦ (
      λ none_stored. absurd (some≢none (sym (ap entry_of here) ∙ none_stored i)),
      λ k y stored.
          (from_unix x.seconds, rw first refl, (i, _, ap entry_of here, refl), column_le s x least),
    )
  ]
