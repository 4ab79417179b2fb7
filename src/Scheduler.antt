-- ===== src/Scheduler.antt =====
-- scheduler.go: the state of the scheduler, and its operations on jobs. Running a job is in `Run`,
-- the loop of the scheduler in `Loop`.
pub mod Run
pub mod Loop
pub mod Jobs
pub mod Pause
pub mod Quiet
pub mod Rounds
pub mod Ticks
pub mod Promptness
pub mod Complete
pub mod InPlace
pub mod Aliasing
pub mod Lifecycle
pub mod Modes
pub mod Unstarted
pub mod Calling
pub mod Notify
pub mod Calls
pub mod Keeps
pub mod Effects
use agscheduler.Base.{
  ℕ, zero, suc, ◌+◌, String, Bool, true, false, Option, none, some, List, [], ◌∷◌, ◌++◌, ltb, not,
  if◌then◌else◌,
}
use agscheduler.Base.Int.{pos, negsuc}
use agscheduler.Errors.{Error, nil_timer}
use agscheduler.Result.{Result, ok, err, panic}
use agscheduler.Exec.{Exec, pure, lift, gets, stop, modify, ◌>>=◌, ◌>>◌}
use agscheduler.Time.{Time, Duration, sub_time, add_time, second}
use agscheduler.Job.{Job, status_running, status_paused}
use agscheduler.Job.Calc.{calc_next_run_time}
use agscheduler.Job.Init as JobInit
use agscheduler.Job.Init.{FuncMap}
use agscheduler.Env.{Env}
use agscheduler.Store.{Store, Slice}
use agscheduler.Cluster
use agscheduler.Cluster.{Node, ClusterNode}

-- What can be seen of the scheduler from outside, in order.
pub data Event : Type 0 where
  ran : Job → Event  -- `_runJob` started the function of the job
  unregistered : Job → Event  -- `_runJob` found no function
  sent : Node → Job → Event  -- `_runJobRemote`
  logged : Error → Event  -- `slog.Error`

pub data Timer : Type 0 where
  armed : ℕ → Timer  -- set to fire after so many nanoseconds
  fired : Timer

-- `Scheduler`, with the store that it is bound to, the registered functions, which the program
-- keeps in the global `funcMap`, and how often the outside was asked for a value.
pub record World (S : Type 0) : Type 0 where
  pub store : S
  pub timer : Option Timer
  pub quits : ℕ  -- messages in `quitChan`
  pub loops : ℕ  -- goroutines in `run`
  pub is_running : Bool
  pub cluster_node : Option ClusterNode
  pub func_map : FuncMap
  pub clock_reads : ℕ
  pub uuids : ℕ
  pub draws : ℕ
  pub events : List Event

module _ {S : Type 0} where
  -- A method of the store, called by the scheduler.
  unfoldable pub on_store : {A : Type 0} → Exec S A → Exec (World S) A
  on_store m w = let (r, s) = m w.store in (r, record w { store = s })

  unfoldable pub ask_store : {A : Type 0} → (S → Result A) → Exec (World S) A
  ask_store f w = (f w.store, w)

  unfoldable pub emit : Event → Exec (World S) Unit
  emit e w = (ok tt, record w { events = w.events ++ e ∷ [] })

  -- `Start`: a new timer that fires at once, a new `quitChan` and a goroutine, unless it runs.
  unfoldable pub start : Exec (World S) Unit
  start w = if w.is_running then (ok tt, w) else (
    ok tt,
    record w { timer = some (armed 0); quits = 0; loops = w.loops + 1; is_running = true },
  )

  -- `Stop`
  unfoldable pub stop_running : Exec (World S) Unit
  stop_running w =
      if w.is_running
      then (ok tt, record w { quits = w.quits + 1; is_running = false })
      else (ok tt, w)

  -- `wakeup`: `Reset` of a nil timer panics.
  unfoldable pub wakeup : Exec (World S) Unit
  wakeup w = elim w.timer [
    | none ↦ (panic nil_timer, w)
    | some t ↦ (ok tt, record w { timer = some (armed 0) })
  ]

-- A negative interval is replaced by a second.
unfoldable pub interval_of : Duration → ℕ
interval_of (pos n) = n
interval_of (negsuc n) = second

module _ (env : Env) {S : Type 0} where
  unfoldable pub read_clock : Exec (World S) Time
  read_clock w = (ok (env.clock w.clock_reads), record w { clock_reads = w.clock_reads + 1 })

  unfoldable pub new_uuid : Exec (World S) String
  new_uuid w = (ok (env.uuid w.uuids), record w { uuids = w.uuids + 1 })

  -- One more call of `rand.Intn`, as a function of its bound.
  unfoldable pub next_draw : Exec (World S) (ℕ → ℕ)
  next_draw w = (ok (env.draw w.draws), record w { draws = w.draws + 1 })

module _ (env : Env) {S : Type 0} (store : Store S) where
  -- The time that `getNextWakeupInterval` waits for; a store that fails is asked again in a second.
  unfoldable pub wakeup_time : Result Time → Exec (World S) Time
  wakeup_time (ok t) = pure t
  wakeup_time (err e) = do emit (logged e); now ← read_clock env; pure (now + second)
  wakeup_time (panic p) = stop p

  -- `getNextWakeupInterval`
  unfoldable pub next_wakeup_interval : Exec (World S) ℕ
  unfolding wakeup_time interval_of read_clock emit
  next_wakeup_interval = do
    found ← gets (λ w. store.get_next_run_time w.store)
    next ← wakeup_time found
    now ← read_clock env
    pure (interval_of (sub_time next now))

  -- `SetStore`
  unfoldable pub set_store : S → Exec (World S) Unit
  unfolding on_store
  set_store sto w = on_store store.init (record w { store = sto })

  -- `AddJob`
  unfoldable pub add_job : Job → Exec (World S) Job
  unfolding on_store start read_clock new_uuid
  add_job j = do
    uuid ← new_uuid env
    now ← read_clock env
    fs ← gets (λ w. w.func_map)
    ready ← lift (JobInit.init env fs uuid now j)
    on_store (store.add_job ready)
    start
    pure ready

  unfoldable pub get_job : String → Exec (World S) Job
  unfolding ask_store
  get_job id = ask_store (store.get_job id)

  unfoldable pub get_all_jobs : Exec (World S) Slice
  unfolding ask_store
  get_all_jobs = ask_store store.get_all_jobs

  unfoldable pub update_job : Job → Exec (World S) Job
  unfolding on_store get_job wakeup next_wakeup_interval
  update_job j = do
    get_job j.id
    fs ← gets (λ w. w.func_map)
    lift (JobInit.check env fs j)
    now ← read_clock env
    next ← lift (calc_next_run_time env now j)
    let timed = record j { next_run_time = next }
    last_interval ← next_wakeup_interval
    on_store (store.update_job timed)
    interval ← next_wakeup_interval
    if ltb interval last_interval then wakeup else pure tt
    pure timed

  unfoldable pub delete_job : String → Exec (World S) Unit
  unfolding on_store get_job
  delete_job id = do get_job id; on_store (store.delete_job id)

  unfoldable pub delete_all_jobs : Exec (World S) Unit
  unfolding on_store
  delete_all_jobs = on_store store.delete_all_jobs

  unfoldable pub pause_job : String → Exec (World S) Job
  unfolding update_job
  pause_job id = do j ← get_job id; update_job (record j { status = status_paused })

  unfoldable pub resume_job : String → Exec (World S) Job
  unfolding update_job
  resume_job id = do j ← get_job id; update_job (record j { status = status_running })

  -- `SetClusterNode`: the node is bound, and initialised.
  unfoldable pub set_cluster_node : ClusterNode → Exec (World S) Unit
  unfolding read_clock new_uuid
  set_cluster_node cn = do
    modify (λ w. record w { cluster_node = some cn })
    uuid ← new_uuid env
    now ← read_clock env
    joined ← lift (Cluster.init uuid now cn)
    modify (λ w. record w { cluster_node = some joined })
