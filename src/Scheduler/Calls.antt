-- ===== src/Scheduler/Calls.antt =====
-- The calls that reach a scheduler, from the program, the services and its goroutine, in any order.
use agscheduler.Base.{ℕ, ◌+◌, String, ◌≡◌, Option, none, List, [], ◌∷◌}
use agscheduler.Result.{ok}
use agscheduler.Job.{Job}
use agscheduler.Job.Init as JobInit
use agscheduler.Env.{Env}
use agscheduler.Store.{Store}
use agscheduler.Scheduler.{
  World, start, stop_running, add_job, get_job, update_job, delete_job, delete_all_jobs, pause_job,
  resume_job,
}
use agscheduler.Scheduler.Run.{run_job, schedule_job}
use agscheduler.Scheduler.Loop.{tick, quit}

pub data Input : Type 0 where
  adding : Job → Input
  getting : (id : String) → Input
  updating : Job → Input
  deleting : (id : String) → Input
  deleting_all : Input
  pausing : (id : String) → Input
  resuming : (id : String) → Input
  running : Job → Input
  scheduling : Job → Input
  starting : Input
  stopping : Input
  ticking : Input  -- the timer fires
  quitting : Input  -- the goroutine reads a message of `quitChan`

-- How many uuids were read after a call at most, given how many were before: `AddJob` reads one.
abbrev pub spent : Input → ℕ → ℕ
spent (adding j) n = n + 1
spent c n = n

abbrev pub spent_all : List Input → ℕ → ℕ
spent_all [] n = n
spent_all (c ∷ cs) n = spent_all cs (spent c n)

module _ (env : Env) {S : Type 0} (store : Store S) where
  -- What the call leaves.
  unfoldable pub after_call : Input → World S → World S
  after_call (adding j) w = (add_job env store j w).1
  after_call (getting id) w = (get_job env store id w).1
  after_call (updating j) w = (update_job env store j w).1
  after_call (deleting id) w = (delete_job env store id w).1
  after_call deleting_all w = (delete_all_jobs env store w).1
  after_call (pausing id) w = (pause_job env store id w).1
  after_call (resuming id) w = (resume_job env store id w).1
  after_call (running j) w = (run_job env j w).1
  after_call (scheduling j) w = (schedule_job env j w).1
  after_call starting w = (start w).1
  after_call stopping w = (stop_running w).1
  after_call ticking w = (tick env store w).1
  after_call quitting w = quit w

  -- A call that adds a job makes an identifier that is not stored; the other calls may be any.
  abbrev pub Admits : (S → String → Option Job) → World S → Input → Type 0
  Admits view w (adding j) =
      (ready : Job)
      → JobInit.init env w.func_map (env.uuid w.uuids) (env.clock w.clock_reads) j ≡ ok ready
      → view w.store ready.id ≡ none
  Admits view w c = Unit

  -- What a sequence of calls leaves.
  unfoldable pub after_calls : List Input → World S → World S
  unfolding after_call
  after_calls [] w = w
  after_calls (c ∷ cs) w = after_calls cs (after_call c w)
