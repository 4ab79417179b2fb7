-- ===== src/Examples/Stores.antt =====
-- examples/stores: `runExample` of base.go, and the programs that run it over each store. What
-- comes of connecting to a database is an argument.
use agscheduler.Base.{ℕ, ◌⊎◌, inl, inr, List, [], ◌∷◌}
use agscheduler.Errors.{Error}
use agscheduler.Result.{err}
use agscheduler.Exec.{Exec, modify, ◌>>=◌, ◌>>◌}
use agscheduler.Job.{Job, zero_job, type_interval, type_cron, type_datetime}
use agscheduler.Job.Init.{register_funcs}
use agscheduler.Env.{Env}
use agscheduler.Store.{Store, fresh}
use agscheduler.Store.Codec.{Codec}
use agscheduler.Store.Memory as Memory
use agscheduler.Store.Memory.{MemoryStore, memory_store}
use agscheduler.Store.Redis as Redis
use agscheduler.Store.Redis.{RedisStore, redis_store}
use agscheduler.Store.Gorm as Gorm
use agscheduler.Store.Gorm.{GormStore, gorm_store}
use agscheduler.Store.Mongo as Mongo
use agscheduler.Store.Mongo.{MongoStore, mongo_store}
use agscheduler.Store.Etcd as Etcd
use agscheduler.Store.Etcd.{EtcdStore, etcd_store}
use agscheduler.Scheduler.{
  World, set_store, add_job, get_job, get_all_jobs, update_job, delete_job, delete_all_jobs,
  pause_job, resume_job, start, stop_running,
}
use agscheduler.Scheduler.Run.{run_job}
use agscheduler.Examples.{Turn, dropped, statement, args1, args2, args3, print_msg_name}

-- The jobs as the program writes them; `print_msg` is the code pointer of `PrintMsg`.
abbrev pub first_job : (print_msg : ℕ) → Job
first_job print_msg = record zero_job {
  name = "Job1";
  type = type_interval;
  interval = "2s";
  timezone = "UTC";
  func = print_msg;
  args = args1;
}

abbrev pub second_job : Job
second_job = record zero_job {
  name = "Job2";
  type = type_cron;
  cron_expr = "*/1 * * * *";
  timezone = "Asia/Shanghai";
  func_name = print_msg_name;
  args = args2;
}

abbrev pub third_job : (print_msg : ℕ) → Job
third_job print_msg = record zero_job {
  name = "Job3";
  type = type_datetime;
  start_at = "2023-09-22 07:30:08";
  timezone = "America/New_York";
  func = print_msg;
  args = args3;
}

module _ (env : Env) {S : Type 0} (store : Store S) where
  -- `agscheduler.RegisterFuncs(examples.PrintMsg)`
  unfoldable pub register_print : (print_msg : ℕ) → Exec (World S) Unit
  register_print print_msg =
      modify (λ w. record w { func_map = register_funcs env (print_msg ∷ []) w.func_map })

  -- `turns` are what the goroutine does after each statement.
  unfoldable pub run_example : (print_msg : ℕ) → (turns : ℕ → List Turn) → Exec (World S) Unit
  run_example print_msg turns = do
    register_print print_msg
    job1 ← statement env store (turns 0) zero_job (add_job env store (first_job print_msg))
    job2 ← statement env store (turns 1) zero_job (add_job env store second_job)
    statement env store (turns 2) tt start
    statement env store (turns 3) zero_job (add_job env store (third_job print_msg))
    statement env store (turns 4) (fresh []) (get_all_jobs env store)
    found ← statement env store (turns 5) zero_job (get_job env store job1.id)
    updated ←
        statement env store (turns 6) zero_job
          (update_job env store (record job2 { type = type_interval; interval = "3s" }))
    paused ← statement env store (turns 7) zero_job (pause_job env store found.id)
    resumed ← statement env store (turns 8) zero_job (resume_job env store paused.id)
    statement env store (turns 9) tt (delete_job env store updated.id)
    statement env store (turns 10) tt stop_running
    statement env store (turns 11) tt (run_job env resumed)
    statement env store (turns 12) tt start
    (λ w. dropped tt (delete_all_jobs env store w))

  -- The end of each `main`; where an error comes back, it prints it and exits.
  unfoldable pub run_with : S → (print_msg : ℕ) → (turns : ℕ → List Turn) → Exec (World S) Unit
  unfolding run_example
  run_with s print_msg turns = do set_store env store s; run_example print_msg turns

  -- A `main` that connects first.
  unfoldable pub run_connected :
      Error ⊎ S → (print_msg : ℕ) → (turns : ℕ → List Turn) → Exec (World S) Unit
  unfolding run_with
  run_connected (inl e) print_msg turns w = (err e, w)
  run_connected (inr s) print_msg turns w = run_with s print_msg turns w

-- The store over what was connected to.
abbrev connected : {D S : Type 0} → (D → S) → Error ⊎ D → Error ⊎ S
connected f (inl e) = inl e
connected f (inr d) = inr (f d)

module _ (env : Env) (print_msg : ℕ) (turns : ℕ → List Turn) where
  -- stores/memory.go
  unfoldable pub memory_main : Exec (World MemoryStore) Unit
  unfolding run_with
  memory_main = run_with env (memory_store env.sort) Memory.empty print_msg turns

  module _ {D : Type 0} (codec : Codec) (connection : Error ⊎ D) where
    -- stores/redis.go
    unfoldable pub redis_main : Redis.Client D → Exec (World (RedisStore D)) Unit
    unfolding run_connected
    redis_main client =
        run_connected env (redis_store client codec)
          (connected
            (λ d. record {
              db = d;
              jobs_key = "agscheduler.example_jobs";
              run_times_key = "agscheduler.example_run_times";
            })
            connection)
          print_msg turns

    -- stores/gorm.go
    unfoldable pub gorm_main : Gorm.Client D → Exec (World (GormStore D)) Unit
    unfolding run_connected
    gorm_main client =
        run_connected env (gorm_store client codec)
          (connected (λ d. record { db = d; table_name = "example_jobs" }) connection) print_msg
          turns

    -- stores/mongodb.go; the collection is nil before `Init`.
    unfoldable pub mongo_main :
        {H : Type 0} → Mongo.Driver D H → (nil_coll : H) → Exec (World (MongoStore D H)) Unit
    unfolding run_connected
    mongo_main driver nil_coll =
        run_connected env (mongo_store driver codec)
          (connected
            (λ d. record { db = d; database = ""; collection = "example_jobs"; coll = nil_coll })
            connection)
          print_msg turns

    -- stores/etcd.go
    unfoldable pub etcd_main : Etcd.Client D → Etcd.Paths → Exec (World (EtcdStore D)) Unit
    unfolding run_connected
    etcd_main client paths =
        run_connected env (etcd_store client paths codec)
          (connected
            (λ d. record {
              db = d;
              jobs_path = "/agscheduler/example_jobs";
              run_times_path = "/agscheduler/example_run_times";
            })
            connection)
          print_msg turns
