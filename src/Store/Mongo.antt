-- ===== src/Store/Mongo.antt =====
-- stores/mongodb.go. The driver of MongoDB and the gob encoding of a job are arguments.
pub mod Refines
pub mod Listing
use agscheduler.Base.{String, Option, none, some, List, [], ◌∷◌, ◌⊎◌, inl, inr, if◌then◌else◌, ◌==◌}
use agscheduler.Base.Int.{ℤ}
use agscheduler.Errors.{Error, job_not_found, external, text, create_index_failed, bad_assertion}
use agscheduler.Result.{Result, ok, err, panic, ◌>>=◌}
use agscheduler.Exec.{Exec}
use agscheduler.Time.{Time, unix, from_unix}
use agscheduler.Job.{Job}
use agscheduler.Store.{Store, Slice, fresh}
use agscheduler.Store.Codec.{Codec, nil_or}

-- A `bson.M`; a field that is missing or has another type is `none`.
pub record Fields : Type 0 where
  pub next_run_time : Option ℤ
  pub state : Option String

-- What `Decode` of a single result gives.
pub data Found : Type 0 where
  no_documents : Found  -- `mongo.ErrNoDocuments`
  document : Fields → Found
  failed : Error → Found

-- The calls of the driver that the store makes, on a collection `H` of a database `D`.
pub record Driver (D H : Type 0) : Type 0 where
  pub collection : (database name : String) → H
  pub create_index : H → D → Option Error × D
  pub insert_one : H → (id : String) → Fields → D → Option Error × D
  pub find_one : H → (id : String) → D → Found
  -- The documents that the cursor gives before `Next` returns false, each decoded.
  pub find : H → D → Error ⊎ List (Error ⊎ Fields)
  pub find_one_and_replace : H → (id : String) → Fields → D → Found × D
  pub delete_one : H → (id : String) → D → Option Error × D
  pub delete_many : H → D → Option Error × D  -- with the filter that matches every document
  pub find_first : H → D → Found  -- `FindOne`, sorted by `next_run_time`
  pub drop : H → D → Option Error × D

pub record MongoStore (D H : Type 0) : Type 0 where
  pub db : D
  pub database : String
  pub collection : String
  pub coll : H

-- The text of `mongo.ErrNoDocuments`.
abbrev pub no_documents_error : Error
no_documents_error = external "mongo: no documents in result"

abbrev pub found_error : Found → Option Error
found_error no_documents = some no_documents_error
found_error (document f) = none
found_error (failed e) = some e

-- A type assertion on a field.
abbrev pub asserted {ℓ} : {A : Type ℓ} → Option A → Result A
asserted none = panic bad_assertion
asserted (some a) = ok a

-- `bson.M{"next_run_time": j.NextRunTime.UTC().Unix(), "state": state}`
abbrev pub fields_of : Job → String → Fields
fields_of j state = record { next_run_time = some (unix j.next_run_time); state = some state }

module _ {D H : Type 0} where
  -- A call of the driver on the collection of the store.
  unfoldable pub on_coll : (H → D → Option Error × D) → Exec (MongoStore D H) Unit
  on_coll call s = let (e, db) = call s.coll s.db in (nil_or e, record s { db = db })

module _ {D H : Type 0} (driver : Driver D H) where
  indexed : Option Error × D → Exec (MongoStore D H) Unit
  indexed (none, db) s = (ok tt, record s { db = db })
  indexed (some e, db) s = (err (create_index_failed (text e)), record s { db = db })

  unfoldable pub init : Exec (MongoStore D H) Unit
  unfolding indexed
  init s =
      let database = if s.database == "" then "agscheduler" else s.database in
      let collection = if s.collection == "" then "jobs" else s.collection in
      let coll = driver.collection database collection in
      indexed (driver.create_index coll s.db)
        (record s { database = database; collection = collection; coll = coll })

  unfoldable pub delete_job : String → Exec (MongoStore D H) Unit
  unfolding on_coll
  delete_job id = on_coll (λ coll. driver.delete_one coll id)

  unfoldable pub delete_all_jobs : Exec (MongoStore D H) Unit
  unfolding on_coll
  delete_all_jobs = on_coll driver.delete_many

  unfoldable pub clear : Exec (MongoStore D H) Unit
  clear s =
      let (e, db) = driver.drop (driver.collection s.database s.collection) s.db in
      (nil_or e, record s { db = db })

  -- The test for `mongo.ErrNoDocuments` comes after the return on any error.
  unfoldable pub first_time : Found → Result Time
  first_time no_documents = err no_documents_error
  first_time (failed e) = err e
  first_time (document f) = asserted f.next_run_time >>= λ n. ok (from_unix n)

  unfoldable pub get_next_run_time : MongoStore D H → Result Time
  unfolding first_time
  get_next_run_time s = first_time (driver.find_first s.coll s.db)

module _ {D H : Type 0} (driver : Driver D H) (codec : Codec) where
  unfoldable pub insert_state : Job → Error ⊎ String → Exec (MongoStore D H) Unit
  unfolding on_coll
  insert_state j (inl e) s = (err e, s)
  insert_state j (inr state) s = on_coll (λ coll. driver.insert_one coll j.id (fields_of j state)) s

  unfoldable pub add_job : Job → Exec (MongoStore D H) Unit
  unfolding insert_state
  add_job j = insert_state j (codec.state_dump j)

  -- The call on the collection, with the error of `Decode`.
  abbrev pub replace_call : Job → String → H → D → Option Error × D
  replace_call j state coll db =
      let (found, db') = driver.find_one_and_replace coll j.id (fields_of j state) db in
      (found_error found, db')

  unfoldable pub replace_state : Job → Error ⊎ String → Exec (MongoStore D H) Unit
  unfolding on_coll
  replace_state j (inl e) s = (err e, s)
  replace_state j (inr state) s = on_coll (replace_call j state) s

  unfoldable pub update_job : Job → Exec (MongoStore D H) Unit
  unfolding replace_state
  update_job j = replace_state j (codec.state_dump j)

  unfoldable pub read_found : String → Found → Result Job
  read_found id no_documents = err (job_not_found id)
  read_found id (failed e) = err e
  read_found id (document f) = asserted f.state >>= codec.state_load

  unfoldable pub get_job : String → MongoStore D H → Result Job
  unfolding read_found
  get_job id s = read_found id (driver.find_one s.coll id s.db)

  unfoldable pub load_documents : List (Error ⊎ Fields) → Result (List Job)
  load_documents [] = ok []
  load_documents (inl e ∷ rest) = err e
  load_documents (inr f ∷ rest) =
      let later = load_documents rest in
      asserted f.state >>= codec.state_load >>= λ j. later >>= λ js. ok (j ∷ js)

  unfoldable list_found : Error ⊎ List (Error ⊎ Fields) → Result Slice
  unfolding load_documents
  list_found (inl e) = err e
  list_found (inr documents) = load_documents documents >>= λ js. ok (fresh js)

  unfoldable pub get_all_jobs : MongoStore D H → Result Slice
  unfolding list_found
  get_all_jobs s = list_found (driver.find s.coll s.db)

  abbrev pub mongo_store : Store (MongoStore D H)
  mongo_store = record {
    init = init driver;
    add_job = add_job;
    get_job = get_job;
    get_all_jobs = get_all_jobs;
    update_job = update_job;
    delete_job = delete_job driver;
    delete_all_jobs = delete_all_jobs driver;
    get_next_run_time = get_next_run_time driver;
    clear = clear driver;
    cells = λ s. [];
    set_cells = λ js s. s;
  }
