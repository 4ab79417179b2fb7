-- ===== src/Scheduler/Lifecycle.antt =====
-- `Start` and `Stop` of scheduler.go, and how long the scheduler sleeps.
use agscheduler.Base.{bit, ◌+◌, ◌-◌, ◌≤◌, ◌<◌, ◌≡◌, true, arith, if◌then◌else◌, leb}
use agscheduler.Time.{Time, sub_time, second, max_duration}
use agscheduler.Scheduler.{World, start, stop_running, interval_of}
use agscheduler.Scheduler.Loop.{quit}

-- The scheduler sleeps until the next run time if that has not passed, at most as long as a
-- Duration can say, and for one second if it has; the result never exceeds the largest Duration.
pub interval_of-sub_time :
    (t now : Time)
    → (interval_of (sub_time t now) ≤ max_duration)
      × (interval_of (sub_time t now) ≡ (
          if leb now t
          then (if leb (t - now) max_duration then t - now else max_duration)
          else second))
unfolding interval_of sub_time
interval_of-sub_time t now = ground arith

module _ {S : Type 0} where
  -- One goroutine for a running scheduler, and one for each message that waits to be read; and one
  -- in all at most.
  pub record IsBalanced (w : World S) : Type 0 where
    pub balance : w.loops ≡ w.quits + bit w.is_running
    pub single : w.loops ≤ 1

  -- `Start` that finds no unread message, `Stop`, and the end of a goroutine that reads one.
  pub data Step : World S → World S → Type 0 where
    starting : (w : World S) → w.quits ≡ 0 → Step w (start w).1
    stopping : (w : World S) → Step w (stop_running w).1
    quitting : (w : World S) → 0 < w.quits → Step w (quit w)

  pub data Reach (v : World S) : World S → Type 0 where
    here : Reach v v
    next : {w u : World S} → Reach v w → Step w u → Reach v u

  Step-IsBalanced : {w u : World S} → Step w u → IsBalanced w → IsBalanced u
  unfolding start stop_running quit
  Step-IsBalanced (starting w drained) b = ground arith
  Step-IsBalanced (stopping w) b = ground arith
  Step-IsBalanced (quitting w waiting) b = ground arith

  -- From a balanced state, however often the scheduler is started and stopped, if every start
  -- finds the message of the stop before it read, the number of goroutines in `run` is one for a
  -- running scheduler plus one for each unread message, and it is at most one.
  pub Reach-IsBalanced : {v w : World S} → Reach v w → IsBalanced v → IsBalanced w
  Reach-IsBalanced here b = b
  Reach-IsBalanced (next r s) b = Step-IsBalanced s (Reach-IsBalanced r b)

  -- When a running scheduler with one goroutine and no unread message is stopped and started again
  -- before the goroutine has read the message, the message is lost with its channel, and two
  -- goroutines run.
  restart_doubles :
      (w : World S)
      → w.is_running ≡ true
      → w.quits ≡ 0
      → IsBalanced w
      → let again = (start (stop_running w).1).1 in
        (again.is_running ≡ true) × (again.quits ≡ 0) × (again.loops ≡ 2)
  unfolding start stop_running
  restart_doubles w running drained b = ground arith
