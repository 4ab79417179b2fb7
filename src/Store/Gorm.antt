-- ===== src/Store/Gorm.antt =====
-- stores/grom.go. The client of gorm and the gob encoding of a job are arguments.
pub mod Refines
pub mod Listing
use agscheduler.Base.{String, Option, none, some, List, [], map, ◌⊎◌, inl, inr, if◌then◌else◌, ◌==◌}
use agscheduler.Errors.{Error, job_not_found, text, create_table_failed}
use agscheduler.Result.{Result, ok, err}
use agscheduler.Exec.{Exec}
use agscheduler.Time.{Time, zero_time}
use agscheduler.Job.{Job}
use agscheduler.Store.{Store, Slice}
use agscheduler.Store.Codec.{Codec, load_states, nil_or}

-- `Jobs`
pub record Row : Type 0 where
  pub id : String
  pub next_run_time : Time
  pub state : String

-- The calls of gorm that the store makes, on one table of a database `D`.
pub record Client (D : Type 0) : Type 0 where
  pub auto_migrate : (table : String) → D → Option Error × D
  pub create : (table : String) → Row → D → Option Error × D
  -- `Where("id = ?", id).Limit(1).Find`, `none` where no row was found
  pub find_by_id : (table id : String) → D → Error ⊎ Option Row
  pub find_all : (table : String) → D → Error ⊎ List Row
  -- Updates the row with that primary key, or creates it.
  pub save : (table : String) → Row → D → Option Error × D
  pub delete_by_id : (table id : String) → D → Option Error × D
  pub delete_rows : (table : String) → D → Option Error × D  -- `Where("1 = 1").Delete`
  -- `Order("next_run_time").Limit(1).Find`
  pub find_first : (table : String) → D → Error ⊎ Option Row
  pub drop_table : (table : String) → D → Option Error × D

pub record GormStore (D : Type 0) : Type 0 where
  pub db : D
  pub table_name : String

-- `Jobs{ID: j.Id, NextRunTime: j.NextRunTime, State: state}`
abbrev pub row_of : Job → String → Row
row_of j state = record { id = j.id; next_run_time = j.next_run_time; state = state }

module _ {D : Type 0} where
  -- A call of the client on the table of the store.
  unfoldable pub on_table : (String → D → Option Error × D) → Exec (GormStore D) Unit
  on_table call s = let (e, db) = call s.table_name s.db in (nil_or e, record s { db = db })

module _ {D : Type 0} (client : Client D) where
  migrated : Option Error × D → Exec (GormStore D) Unit
  migrated (none, db) s = (ok tt, record s { db = db })
  migrated (some e, db) s = (err (create_table_failed (text e)), record s { db = db })

  unfoldable pub init : Exec (GormStore D) Unit
  unfolding migrated
  init s =
      let table = if s.table_name == "" then "jobs" else s.table_name in
      migrated (client.auto_migrate table s.db) (record s { table_name = table })

  unfoldable pub delete_job : String → Exec (GormStore D) Unit
  unfolding on_table
  delete_job id = on_table (λ table. client.delete_by_id table id)

  unfoldable pub delete_all_jobs : Exec (GormStore D) Unit
  unfolding on_table
  delete_all_jobs = on_table client.delete_rows

  unfoldable pub clear : Exec (GormStore D) Unit
  unfolding on_table
  clear = on_table client.drop_table

  unfoldable pub first_row : Error ⊎ Option Row → Result Time
  first_row (inl e) = err e
  first_row (inr none) = ok zero_time
  first_row (inr (some row)) = ok row.next_run_time

  unfoldable pub get_next_run_time : GormStore D → Result Time
  unfolding first_row
  get_next_run_time s = first_row (client.find_first s.table_name s.db)

module _ {D : Type 0} (client : Client D) (codec : Codec) where
  unfoldable pub add_state : Job → Error ⊎ String → Exec (GormStore D) Unit
  unfolding on_table
  add_state j (inl e) s = (err e, s)
  add_state j (inr state) s = on_table (λ table. client.create table (row_of j state)) s

  unfoldable pub add_job : Job → Exec (GormStore D) Unit
  unfolding add_state
  add_job j = add_state j (codec.state_dump j)

  unfoldable pub save_state : Job → Error ⊎ String → Exec (GormStore D) Unit
  unfolding on_table
  save_state j (inl e) s = (err e, s)
  save_state j (inr state) s = on_table (λ table. client.save table (row_of j state)) s

  unfoldable pub update_job : Job → Exec (GormStore D) Unit
  unfolding save_state
  update_job j = save_state j (codec.state_dump j)

  unfoldable pub read_row : String → Error ⊎ Option Row → Result Job
  read_row id (inl e) = err e
  read_row id (inr none) = err (job_not_found id)
  read_row id (inr (some row)) = codec.state_load row.state

  unfoldable pub get_job : String → GormStore D → Result Job
  unfolding read_row
  get_job id s = read_row id (client.find_by_id s.table_name id s.db)

  unfoldable states : Error ⊎ List Row → Error ⊎ List String
  states (inl e) = inl e
  states (inr rows) = inr (map (λ row. row.state) rows)

  unfoldable pub get_all_jobs : GormStore D → Result Slice
  unfolding load_states states
  get_all_jobs s = load_states codec (states (client.find_all s.table_name s.db))

  abbrev pub gorm_store : Store (GormStore D)
  gorm_store = record {
    init = init client;
    add_job = add_job;
    get_job = get_job;
    get_all_jobs = get_all_jobs;
    update_job = update_job;
    delete_job = delete_job client;
    delete_all_jobs = delete_all_jobs client;
    get_next_run_time = get_next_run_time client;
    clear = clear client;
    cells = λ s. [];
    set_cells = λ js s. s;
  }
