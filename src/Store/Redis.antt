-- ===== src/Store/Redis.antt =====
-- stores/redis.go. The client of go-redis and the gob encoding of a job are arguments.
pub mod Server
pub mod Refines
pub mod Listing
use agscheduler.Base.{
  ℕ, ◌+◌, ◌-◌, ◌*◌, ◌/◌, ◌≡◌, arith, leb, String, Option, none, some, List, [], ◌∷◌, ◌⊎◌, inl, inr,
  if◌then◌else◌, ◌==◌,
}
use agscheduler.Base.Int.{ℤ, pos, negsuc}
use agscheduler.Errors.{Error, job_not_found}
use agscheduler.Result.{Result, ok, err, panic}
use agscheduler.Exec.{Exec}
use agscheduler.Time.{Time, zero_time, unix, from_unix}
use agscheduler.Store.Codec.{Codec, load_states, nil_or}
use agscheduler.Job.{Job}
use agscheduler.Store.{Store, Slice}

-- The commands that the store puts into a pipeline.
pub data Command : Type 0 where
  hset : (key field value : String) → Command
  hdel : (key field : String) → Command
  zadd : (key : String) → (score : ℤ) → (member : String) → Command
  zrem : (key member : String) → Command
  del : (key : String) → Command

-- The result of `HGet`: `absent` is `redis.Nil`.
pub data Reply : Type 0 where
  absent : Reply
  present : String → Reply
  failed : Error → Reply

-- The client, over a database `D`. The scores are whole numbers below 2^53, which a float64 holds.
pub record Client (D : Type 0) : Type 0 where
  pub pipelined : List Command → D → Option Error × D
  pub hget : (key field : String) → D → Reply
  pub hget_all : (key : String) → D → Error ⊎ List String
  -- `ZRangeWithScores(ctx, key, 0, 0)`
  pub zrange_first : (key : String) → D → Error ⊎ List (String × ℤ)

pub record RedisStore (D : Type 0) : Type 0 where
  pub db : D
  pub jobs_key : String
  pub run_times_key : String

module _ {D : Type 0} where
  unfoldable pub init : Exec (RedisStore D) Unit
  init s = (
    ok tt,
    record s {
      jobs_key = if s.jobs_key == "" then "agscheduler.jobs" else s.jobs_key;
      run_times_key = if s.run_times_key == "" then "agscheduler.run_times" else s.run_times_key;
    },
  )

module _ {D : Type 0} (client : Client D) where
  unfoldable pub run_pipeline : List Command → Exec (RedisStore D) Unit
  run_pipeline commands s =
      let (e, db) = client.pipelined commands s.db in (nil_or e, record s { db = db })

  unfoldable pub delete_job : String → Exec (RedisStore D) Unit
  unfolding run_pipeline
  delete_job id s = run_pipeline (hdel s.jobs_key id ∷ zrem s.run_times_key id ∷ []) s

  unfoldable pub delete_all_jobs : Exec (RedisStore D) Unit
  unfolding run_pipeline
  delete_all_jobs s = run_pipeline (del s.jobs_key ∷ del s.run_times_key ∷ []) s

  unfoldable pub clear : Exec (RedisStore D) Unit
  unfolding delete_all_jobs
  clear = delete_all_jobs

  unfoldable pub first_score : Error ⊎ List (String × ℤ) → Time
  first_score (inl e) = zero_time
  first_score (inr []) = zero_time
  first_score (inr ((m, score) ∷ rest)) = from_unix score

  -- An error is taken for an empty store.
  unfoldable pub get_next_run_time : RedisStore D → Result Time
  unfolding first_score from_unix
  get_next_run_time s = ok (first_score (client.zrange_first s.run_times_key s.db))

module _ {D : Type 0} (client : Client D) (codec : Codec) where
  unfoldable pub write_state : Job → Error ⊎ String → Exec (RedisStore D) Unit
  write_state j (inl e) s = (err e, s)
  write_state j (inr state) s =
      run_pipeline client
        (hset s.jobs_key j.id state ∷ zadd s.run_times_key (unix j.next_run_time) j.id ∷ []) s

  unfoldable pub add_job : Job → Exec (RedisStore D) Unit
  unfolding write_state run_pipeline unix
  add_job j = write_state j (codec.state_dump j)

  -- `UpdateJob` has the body of `AddJob`.
  unfoldable pub update_job : Job → Exec (RedisStore D) Unit
  unfolding write_state run_pipeline unix
  update_job j = write_state j (codec.state_dump j)

  unfoldable pub read_reply : String → Reply → Result Job
  read_reply id absent = err (job_not_found id)
  read_reply id (present state) = codec.state_load state
  read_reply id (failed e) = err e

  unfoldable pub get_job : String → RedisStore D → Result Job
  unfolding read_reply
  get_job id s = read_reply id (client.hget s.jobs_key id s.db)

  unfoldable pub get_all_jobs : RedisStore D → Result Slice
  unfolding load_states
  get_all_jobs s = load_states codec (client.hget_all s.jobs_key s.db)

  abbrev pub redis_store : Store (RedisStore D)
  redis_store = record {
    init = init;
    add_job = add_job;
    get_job = get_job;
    get_all_jobs = get_all_jobs;
    update_job = update_job;
    delete_job = delete_job client;
    delete_all_jobs = delete_all_jobs client;
    get_next_run_time = get_next_run_time client;
    clear = clear client;
    cells = λ s. [];
    set_cells = λ js s. s;
  }
