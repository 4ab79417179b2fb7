-- ===== src/Store/Keyed/Refines.antt =====
-- A store that keeps one encoded job for each identifier keeps the contract of the scheduler.
use agscheduler.Base.{
  ◌≤◌, ◌≡◌, refl, sym, ap, ◌∙◌, subst, arith, String, Option, none, some, inl, inr, some≢none,
  if◌then◌else◌, ◌==◌, Bool-cases, Option-cases, Sum-cases, eq_iff, some_inj,
}
use agscheduler.Errors.{job_not_found}
use agscheduler.Result.{Result, ok, require}
use agscheduler.Time.{Time}
use agscheduler.Job.{Job}
use agscheduler.Store.{Store}
use agscheduler.Store.Contract.{AddsAny, IsMap, IsLawful, Becomes}
use agscheduler.Store.Codec.{Codec, loaded, kept, kept_state, IsGob}
use agscheduler.Store.Keyed.{
  Entry, read_entry, shown, Decodes, Writes, AddsKeyed, IsKeyed, IsTimed, IsStored, view,
}

module _ (codec : Codec) where
  shown-Decodes :
      (i : String) (e : Entry) (d : Decodes codec i e) → shown codec (some e) ≡ some d.job
  unfolding shown loaded
  shown-Decodes i e d = rw d.loads refl

  -- Where a job is shown, there is an entry that decodes to it.
  shown-some :
      (o : Option Entry) (j : Job)
      → shown codec o ≡ some j
      → (e : Entry) × (o ≡ some e) × (shown codec (some e) ≡ some j)
  unfolding shown
  shown-some none j h = absurd (some≢none (sym h))
  shown-some (some e) j h = (e, refl, h)

  shown-if :
      (i k : String) (e : Entry) (o : Option Entry)
      → shown codec (if i == k then some e else o)
        ≡ (if i == k then shown codec (some e) else shown codec o)
  shown-if i k e o = elim (Bool-cases (i == k)) [ inl h ↦ rw h refl | inr h ↦ rw h refl ]

  shown-unless :
      (i k : String) (o : Option Entry)
      → shown codec (if i == k then none else o) ≡ (if i == k then none else shown codec o)
  unfolding shown
  shown-unless i k o = elim (Bool-cases (i == k)) [ inl h ↦ rw h refl | inr h ↦ rw h refl ]

module _ {S : Type 0} (docs : S → String → Option Entry) (Good : S → Type 0) (codec : Codec)
    (gob : IsGob codec) (column : Time → Time) (early : (t : Time) → column t ≤ t) (store : Store S)
    (keyed : IsKeyed docs Good codec column store) where
  abbrev Inv : S → Type 0
  Inv = IsStored docs Good codec

  abbrev map_of : S → String → Option Job
  map_of = view docs Good codec

  found_entry :
      (s : S) (i : String) (j : Job)
      → Inv s
      → map_of s i ≡ some j
      → (e : Entry) × (docs s i ≡ some e) × (d : Decodes codec i e) × (d.job ≡ j)
  found_entry s i j v found =
      let (e, at, shows) = shown-some codec (docs s i) j found in
      let d = v.decodes i e at in (e, at, d, some_inj (sym (shown-Decodes codec i e d) ∙ shows))

  -- Where no job is shown, there is no entry.
  lost_entry : (s : S) (i : String) → Inv s → map_of s i ≡ none → docs s i ≡ none
  lost_entry s i v lost = elim (Option-cases (docs s i)) [
    | inl h ↦ h
    | inr (e, h) ↦ absurd (
        some≢none
          (sym (shown-Decodes codec i e (v.decodes i e h)) ∙ sym (ap (shown codec) h) ∙ lost))
  ]

  get_of_keyed :
      (s : S) (i : String) → Inv s → store.get_job i s ≡ require (job_not_found i) (map_of s i)
  unfolding read_entry shown loaded
  get_of_keyed s i v = keyed.get s i v.good ∙ elim (Option-cases (docs s i)) [
    | inl h ↦ rw h refl
    | inr (e, h) ↦ let d = v.decodes i e h in rw (h, d.loads) refl
  ]

  -- A job that the store keeps was encoded, and decodes to what is kept.
  encoded :
      (j k : Job)
      → kept codec j ≡ some k
      → (state : String) × (codec.state_dump j ≡ inr state)
        × (codec.state_load state ≡ ok k)
        × (k.id ≡ j.id)
        × (k.next_run_time ≡ j.next_run_time)
  unfolding kept_state loaded
  encoded j k keep = elim (Sum-cases (codec.state_dump j)) [
    | inl (e, h) ↦ absurd (some≢none (sym (sym (rw h refl) ∙ keep)))
    | inr (state, h) ↦
        let (k', loads, same, timed) = gob.decodes j state h in
        let e : k' ≡ k = some_inj (sym (rw (h, loads) refl) ∙ keep) in
        (
          state,
          h,
          loads ∙ ap ok e,
          subst (λ y. y.id ≡ j.id) e same,
          subst (λ y. y.next_run_time ≡ j.next_run_time) e timed,
        )
  ]

  write_of_keyed :
      (s : S) (j k : Job) (state : String) (r : Result (Unit {0}) × S)
      → Inv s
      → codec.state_load state ≡ ok k
      → k.id ≡ j.id
      → k.next_run_time ≡ j.next_run_time
      → Writes docs Good r (λ i.
        if j.id == i
        then some (record { time = column j.next_run_time; state = state })
        else docs s i)
      → Becomes Inv map_of r (λ i. if j.id == i then some k else map_of s i)
  unfolding shown loaded
  write_of_keyed s j k state r v loads same timed writes =
      let entry : Entry = record { time = column j.next_run_time; state = state } in
      record {
        done = writes.done;
        keeps = record {
          good = writes.good;
          decodes = λ i e at. elim (Bool-cases (j.id == i)) [
            | inl h ↦
                let is : entry ≡ e = some_inj (sym (writes.entries i ∙ rw h refl) ∙ at) in
                subst (Decodes codec i) is (record {
                  job = k;
                  loads = loads;
                  named = same ∙ (eq_iff j.id i).0 h;
                  early = rw timed (early j.next_run_time);
                })
            | inr h ↦ v.decodes i e (sym (writes.entries i ∙ rw h refl) ∙ at)
          ];
        };
        views = λ i.
            ap (shown codec) (writes.entries i)
            ∙ shown-if codec j.id i entry (docs s i)
            ∙ rw loads refl;
      }

  -- A store whose operations read and write one entry each acts on single jobs as on a map.
  pub keyed-IsMap : IsMap Inv map_of (kept codec) store
  unfolding kept_state loaded shown
  keyed-IsMap = record {
    id_view = λ s i j v found.
        let (e, at, d, is) = found_entry s i j v found in subst (λ y. y.id ≡ i) is d.named;
    get = get_of_keyed;
    add = λ s j k v named fresh keep.
        let (state, dumped, loads, same, timed) = encoded j k keep in
        write_of_keyed s j k state _ v loads same timed
          (keyed.add s j state v.good named (lost_entry s j.id v fresh) dumped);
    update = λ s j x k v found keep.
        let (state, dumped, loads, same, timed) = encoded j k keep in
        let (e, at, d, is) = found_entry s j.id x v found in
        write_of_keyed s j k state _ v loads same timed (keyed.update s j e state v.good at dumped);
    refuse_new = λ s j v fresh lost. elim (Sum-cases (codec.state_dump j)) [
      | inl (e, h) ↦ (e, keyed.refuse_new s j e h)
      | inr (state, h) ↦
          let (k, loads, same, timed) = gob.decodes j state h in
          let was : kept codec j ≡ some k = rw (h, loads) refl in
          absurd (some≢none (sym was ∙ lost))
    ];
    refuse = λ s j x v found lost. elim (Sum-cases (codec.state_dump j)) [
      | inl (e, h) ↦ (e, keyed.refuse s j e h)
      | inr (state, h) ↦
          let (k, loads, same, timed) = gob.decodes j state h in
          let was : kept codec j ≡ some k = rw (h, loads) refl in
          absurd (some≢none (sym was ∙ lost))
    ];
    delete = λ s id x v found.
        let writes = keyed.delete s id v.good in
        record {
          done = writes.done;
          keeps = record {
            good = writes.good;
            decodes = λ i e at. elim (Bool-cases (id == i)) [
              | inl h ↦ absurd (some≢none (sym (sym (writes.entries i ∙ rw h refl) ∙ at)))
              | inr h ↦ v.decodes i e (sym (writes.entries i ∙ rw h refl) ∙ at)
            ];
          };
          views = λ i. ap (shown codec) (writes.entries i) ∙ shown-unless codec id i (docs s i);
        };
    delete_all = λ s v.
        let writes = keyed.delete_all s v.good in
        record {
          done = writes.done;
          keeps = record {
            good = writes.good;
            decodes = λ i e at. absurd (some≢none (sym at ∙ writes.entries i));
          };
          views = λ i. ap (shown codec) (writes.entries i);
        };
  }

  -- Where any new job can be written, any new job can be added.
  pub keyed-AddsAny : AddsKeyed docs Good codec column store → AddsAny Inv map_of (kept codec) store
  keyed-AddsAny adds s j k v fresh keep =
      let (state, dumped, loads, same, timed) = encoded j k keep in
      write_of_keyed s j k state _ v loads same timed
        (adds s j state v.good (lost_entry s j.id v fresh) dumped)

  -- With a next run time that is never late, it keeps the whole contract.
  pub keyed-IsLawful : IsTimed docs Good store → IsLawful Inv map_of (kept codec) store
  keyed-IsLawful timed = record {
    map_laws = keyed-IsMap;
    next_total = λ s v. timed.total s v.good;
    next_least = λ s t i j v computed found.
        let (e, at, d, is) = found_entry s i j v found in
        let no_later = timed.least s t i e v.good computed at in
        subst (λ y. t ≤ y.next_run_time) is (omega (arith, d.early, no_later));
  }
