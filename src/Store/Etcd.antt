-- ===== src/Store/Etcd.antt =====
-- stores/etcd.go. The client of etcd, the gob encoding of a job, and Go's `path.Join` and `strconv`
-- are arguments.
pub mod Lookup
use agscheduler.Base.{String, Option, none, some, List, [], ◌∷◌, ◌⊎◌, inl, inr, if◌then◌else◌, ◌==◌}
use agscheduler.Base.Int.{ℤ}
use agscheduler.Errors.{Error, job_not_found}
use agscheduler.Result.{Result, ok, err}
use agscheduler.Exec.{Exec}
use agscheduler.Time.{Time, zero_time, unix, from_unix}
use agscheduler.Job.{Job}
use agscheduler.Store.{Store, Slice}
use agscheduler.Store.Codec.{Codec, load_states, nil_or}

-- The operations of a transaction.
pub data Op : Type 0 where
  op_put : (key value : String) → Op
  op_delete : (key : String) → Op
  op_delete_prefix : (prefix : String) → Op

-- The client, over a database `D`.
pub record Client (D : Type 0) : Type 0 where
  -- `Txn(ctx).If(Version(key) > 0 for each key).Then(ops).Commit()`
  pub commit : (exist : List String) → List Op → D → Option Error × D
  pub get : (key : String) → D → Error ⊎ List String  -- the values
  pub get_prefix : (prefix : String) → D → Error ⊎ List String
  -- `Get` with the prefix, sorted by value, ascending, and the limit 1
  pub get_least : (prefix : String) → D → Error ⊎ List String

-- `path.Join` of two elements, `strconv.Itoa` and `strconv.Atoi`.
pub record Paths : Type 0 where
  pub join : String → String → String
  pub itoa : ℤ → String
  pub atoi : String → Error ⊎ ℤ

pub record EtcdStore (D : Type 0) : Type 0 where
  pub db : D
  pub jobs_path : String
  pub run_times_path : String

module _ {D : Type 0} where
  unfoldable pub init : Exec (EtcdStore D) Unit
  init s = (
    ok tt,
    record s {
      jobs_path = if s.jobs_path == "" then "/agscheduler/jobs" else s.jobs_path;
      run_times_path =
          if s.run_times_path == "" then "/agscheduler/run_times" else s.run_times_path;
    },
  )

module _ {D : Type 0} (client : Client D) where
  unfoldable pub run_txn : (exist : List String) → List Op → Exec (EtcdStore D) Unit
  run_txn exist ops s =
      let (e, db) = client.commit exist ops s.db in (nil_or e, record s { db = db })

  unfoldable pub delete_all_jobs : Exec (EtcdStore D) Unit
  unfolding run_txn
  delete_all_jobs s =
      run_txn [] (op_delete_prefix s.jobs_path ∷ op_delete_prefix s.run_times_path ∷ []) s

  unfoldable pub clear : Exec (EtcdStore D) Unit
  unfolding delete_all_jobs
  clear = delete_all_jobs

module _ {D : Type 0} (client : Client D) (paths : Paths) where
  unfoldable pub delete_job : String → Exec (EtcdStore D) Unit
  unfolding run_txn
  delete_job id s =
      let job_path = paths.join s.jobs_path id in
      let run_time_path = paths.join s.run_times_path id in
      run_txn client (job_path ∷ []) (op_delete job_path ∷ op_delete run_time_path ∷ []) s

  unfoldable pub parsed_time : Error ⊎ ℤ → Result Time
  parsed_time (inl e) = err e
  parsed_time (inr n) = ok (from_unix n)

  unfoldable pub least_time : Error ⊎ List String → Result Time
  unfolding parsed_time
  least_time (inl e) = err e
  least_time (inr []) = ok zero_time
  least_time (inr (value ∷ rest)) = parsed_time (paths.atoi value)

  unfoldable pub get_next_run_time : EtcdStore D → Result Time
  unfolding least_time
  get_next_run_time s = least_time (client.get_least s.run_times_path s.db)

module _ {D : Type 0} (client : Client D) (paths : Paths) (codec : Codec) where
  -- Both values of a job.
  abbrev pub put_ops : EtcdStore D → Job → String → List Op
  put_ops s j state =
      op_put (paths.join s.jobs_path j.id) state
      ∷ op_put (paths.join s.run_times_path j.id) (paths.itoa (unix j.next_run_time))
      ∷ []

  unfoldable pub put_state : Job → Error ⊎ String → Exec (EtcdStore D) Unit
  unfolding run_txn
  put_state j (inl e) s = (err e, s)
  put_state j (inr state) s = run_txn client [] (put_ops s j state) s

  unfoldable pub add_job : Job → Exec (EtcdStore D) Unit
  unfolding put_state
  add_job j = put_state j (codec.state_dump j)

  unfoldable pub replace_state : Job → Error ⊎ String → Exec (EtcdStore D) Unit
  unfolding run_txn
  replace_state j (inl e) s = (err e, s)
  replace_state j (inr state) s =
      run_txn client (paths.join s.jobs_path j.id ∷ []) (put_ops s j state) s

  -- Whether the condition of the transaction held is not looked at.
  unfoldable pub update_job : Job → Exec (EtcdStore D) Unit
  unfolding replace_state
  update_job j = replace_state j (codec.state_dump j)

  unfoldable pub read_values : String → Error ⊎ List String → Result Job
  read_values id (inl e) = err e
  read_values id (inr []) = err (job_not_found id)
  read_values id (inr (state ∷ rest)) = codec.state_load state

  unfoldable pub get_job : String → EtcdStore D → Result Job
  unfolding read_values
  get_job id s = read_values id (client.get (paths.join s.jobs_path id) s.db)

  unfoldable pub get_all_jobs : EtcdStore D → Result Slice
  unfolding load_states
  get_all_jobs s = load_states codec (client.get_prefix s.jobs_path s.db)

  abbrev pub etcd_store : Store (EtcdStore D)
  etcd_store = record {
    init = init;
    add_job = add_job;
    get_job = get_job;
    get_all_jobs = get_all_jobs;
    update_job = update_job;
    delete_job = delete_job client paths;
    delete_all_jobs = delete_all_jobs client;
    get_next_run_time = get_next_run_time client paths;
    clear = clear client;
    cells = λ s. [];
    set_cells = λ js s. s;
  }
