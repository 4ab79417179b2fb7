-- ===== src/Store/Gorm/Refines.antt =====
-- stores/grom.go against interface.go, over a database that does what gorm documents.
use agscheduler.Base.{
  ◌≤◌, ◌≡◌, refl, ap, ◌∙◌, sym, arith, String, Option, none, some, inl, inr, if◌then◌else◌, ◌==◌,
  Option-cases, Bool-cases, ◌≢◌, some≢none, ne→test,
}
use agscheduler.Errors.{Error}
use agscheduler.Result.{ok, ok-injective}
use agscheduler.Time.{Time, zero_time}
use agscheduler.Store.Contract.{IsLawful}
use agscheduler.Store.Codec.{Codec, kept, IsGob, nil_or}
use agscheduler.Store.Keyed.Refines.{keyed-IsLawful}
use agscheduler.Store.Keyed.{Entry, Leaves, read_entry, Writes, IsKeyed, IsTimed, IsStored, view}
use agscheduler.Store.Gorm.{
  Row, row_of, Client, GormStore, on_table, delete_job, delete_all_jobs, first_row,
  get_next_run_time, add_state, add_job, save_state, update_job, read_row, get_job, gorm_store,
}

-- A row as it is found again.
abbrev pub found_row : String → Option Entry → Option Row
found_row i none = none
found_row i (some e) = some (record { id = i; next_run_time = e.time; state = e.state })

-- What gorm documents of its statements on a table `rows` that exists in a database that answers
-- (`Ready`): `id` is the primary key, and compared byte by byte, every row with one is taken, and
-- `column` is what the column keeps of a time. `Save` of a row without a primary key is a `Create`;
-- nothing is said of it.
pub record IsGorm {D : Type 0} (client : Client D) (Ready : D → String → Type 0)
    (rows : D → String → String → Option Entry) (column : Time → Time) : Type 0 where
  pub early : (t : Time) → column t ≤ t
  pub finds :
      (d : D) (table i : String)
      → Ready d table
      → client.find_by_id table i d ≡ inr (found_row i (rows d table i))
  pub creates :
      (d : D) (table : String) (row : Row)
      → Ready d table
      → row.id ≢ ""
      → rows d table row.id ≡ none
      → Leaves Ready rows table (client.create table row d) (λ i.
        if row.id == i
        then some (record { time = column row.next_run_time; state = row.state })
        else rows d table i)
  pub saves :
      (d : D) (table : String) (row : Row)
      → Ready d table
      → row.id ≢ ""
      → Leaves Ready rows table (client.save table row d) (λ i.
        if row.id == i
        then some (record { time = column row.next_run_time; state = row.state })
        else rows d table i)
  pub deletes :
      (d : D) (table id : String)
      → Ready d table
      → Leaves Ready rows table
          (client.delete_by_id table id d)
          (λ i. if id == i then none else rows d table i)
  pub empties :
      (d : D) (table : String)
      → Ready d table
      → Leaves Ready rows table (client.delete_rows table d) (λ i. none)
  pub orders :
      (d : D) (table : String)
      → Ready d table
      → (first : Option Row) × (client.find_first table d ≡ inr first)
        × ((row : Row) (i : String) (e : Entry)
            → first ≡ some row
            → rows d table i ≡ some e
            → row.next_run_time ≤ e.time)

-- The rows that a store shows, and when its table can be used.
abbrev pub docs :
    {D : Type 0} → (D → String → String → Option Entry) → GormStore D → String → Option Entry
docs rows s = rows s.db s.table_name

abbrev pub Good : {D : Type 0} → (D → String → Type 0) → GormStore D → Type 0
Good Ready s = Ready s.db s.table_name

-- Moreover, no row is without a primary key.
pub record Named {D : Type 0} (Ready : D → String → Type 0)
    (rows : D → String → String → Option Entry) (s : GormStore D) : Type 0 where
  pub ready : Good Ready s
  pub unnamed : docs rows s "" ≡ none

module _ {D : Type 0} {client : Client D} {Ready : D → String → Type 0}
    {rows : D → String → String → Option Entry} {column : Time → Time}
    (gorm : IsGorm client Ready rows column) where
  on_table-Writes :
      (call : String → D → Option Error × D) (s : GormStore D) (new : String → Option Entry)
      → Leaves Ready rows s.table_name (call s.table_name s.db) new
      → new "" ≡ none
      → Writes (docs rows) (Named Ready rows) (on_table call s) new
  unfolding on_table
  on_table-Writes call s new leaves unnamed = record {
    done = ap nil_or leaves.fine;
    good = record { ready = leaves.ready; unnamed = leaves.holds "" ∙ unnamed };
    entries = leaves.holds;
  }

  -- Where a row is stored, it has a primary key.
  has_key :
      (s : GormStore D) (i : String) (x : Entry)
      → Named Ready rows s
      → docs rows s i ≡ some x
      → i ≢ ""
  has_key s i x good found none_there =
      some≢none (sym found ∙ ap (docs rows s) none_there ∙ good.unnamed)

  gorm_store-IsKeyed :
      (codec : Codec)
      → IsKeyed (docs rows) (Named Ready rows) codec column (gorm_store client codec)
  unfolding get_job read_row read_entry add_job add_state update_job save_state delete_job
      delete_all_jobs
  gorm_store-IsKeyed codec = record {
    get = λ s i good.
        ap (read_row client codec i) (gorm.finds s.db s.table_name i good.ready)
        ∙ elim (Option-cases (docs rows s i)) [ inl h ↦ rw h refl | inr (e, h) ↦ rw h refl ];
    add = λ s j state good named fresh dumped. rw dumped (
        on_table-Writes (λ table. client.create table (row_of j state)) s _
          (gorm.creates s.db s.table_name _ good.ready named fresh)
          (rw (ne→test j.id "" named) good.unnamed));
    update = λ s j x state good found dumped.
        let named = has_key s j.id x good found in
        rw dumped (
          on_table-Writes (λ table. client.save table (row_of j state)) s _
            (gorm.saves s.db s.table_name _ good.ready named)
            (rw (ne→test j.id "" named) good.unnamed));
    refuse_new = λ s j e dumped. rw dumped refl;
    refuse = λ s j e dumped. rw dumped refl;
    delete = λ s id good.
        on_table-Writes (λ table. client.delete_by_id table id) s _
          (gorm.deletes s.db s.table_name id good.ready)
          (elim (Bool-cases (id == "")) [ inl h ↦ rw h refl | inr h ↦ rw h good.unnamed ]);
    delete_all = λ s good.
        on_table-Writes client.delete_rows s _ (gorm.empties s.db s.table_name good.ready) refl;
  }

  gorm_store-IsTimed :
      (codec : Codec) → IsTimed (docs rows) (Named Ready rows) (gorm_store client codec)
  unfolding get_next_run_time first_row
  gorm_store-IsTimed codec = record {
    total = λ s good.
        let (first, e, least) = gorm.orders s.db s.table_name good.ready in
        rw e (elim (Option-cases first) [ inl h ↦ rw h (_, refl) | inr (row, h) ↦ rw h (_, refl) ]);
    least = λ s t i e good computed found.
        let (first, at, least) = gorm.orders s.db s.table_name good.ready in
        elim (Option-cases first) [
          | inl h ↦
              let was : get_next_run_time client s ≡ ok zero_time = rw (at, h) refl in
              omega (arith, ok-injective (sym was ∙ computed))
          | inr (row, h) ↦
              let was : get_next_run_time client s ≡ ok row.next_run_time = rw (at, h) refl in
              omega (arith, ok-injective (sym was ∙ computed), least row i e h found)
        ];
  }

  -- Over a database that answers and does what gorm documents, whose table compares primary keys
  -- byte by byte, takes every row with one and keeps no time later than it was written, with an
  -- encoding that keeps the identifier and the next run time of every job that it can encode, the
  -- store of grom.go keeps the contract that the scheduler relies on: where no row is without a
  -- primary key and every row decodes to a job of that identifier that runs no earlier than its
  -- column says, getting a job, adding one with an identifier, updating and deleting one and
  -- deleting all jobs act as on a map from identifiers to what decodes from the encoded job, keep
  -- that state, and refuse a job that cannot be encoded; and the next run time can always be
  -- computed and is no later than that of any stored job.
  pub gorm_store-IsLawful :
      (codec : Codec)
      → IsGob codec
      → IsLawful
          (IsStored (docs rows) (Named Ready rows) codec)
          (view (docs rows) (Named Ready rows) codec)
          (kept codec)
          (gorm_store client codec)
  gorm_store-IsLawful codec gob =
      keyed-IsLawful (docs rows) (Named Ready rows) codec gob column gorm.early
        (gorm_store client codec) (gorm_store-IsKeyed codec) (gorm_store-IsTimed codec)
