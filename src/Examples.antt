-- ===== src/Examples.antt =====
-- examples: the programs that show the use of the library. Between two statements, and while a
-- program sleeps, the goroutine of its scheduler may make any number of turns; they are arguments.
-- What a program prints is left out: a `String` that panics is caught by fmt.
pub mod Stores
pub mod Http
pub mod Rpc
pub mod Cluster
use agscheduler.Base.{ℕ, String, List, [], ◌∷◌}
use agscheduler.Result.{Result, ok, err, panic}
use agscheduler.Exec.{Exec, pure, modify, ◌>>=◌, ◌>>◌}
use agscheduler.Job.Value.{Fields, no_fields, field, string}
use agscheduler.Env.{Env}
use agscheduler.Store.{Store}
use agscheduler.Scheduler.{World}
use agscheduler.Scheduler.Loop.{tick, quit}

-- A turn of `run`.
pub data Turn : Type 0 where
  fires : Turn  -- the timer fires
  quits : Turn  -- a message of `quitChan` is read

-- `x, _ = call`, where the call returns `x` beside an error.
unfoldable pub dropped : {S A : Type 0} → A → Result A × World S → Result A × World S
dropped x (ok a, w) = (ok a, w)
dropped x (err e, w) = (ok x, w)
dropped x (panic p, w) = (panic p, w)

module _ (env : Env) {S : Type 0} (store : Store S) where
  unfoldable pub idle : List Turn → Exec (World S) Unit
  unfolding dropped
  idle [] = pure tt
  idle (fires ∷ ts) = do (λ w. dropped tt (tick env store w)); idle ts
  idle (quits ∷ ts) = do modify quit; idle ts

  -- A statement whose error is dropped, and the turns before the next one.
  unfoldable pub statement : {A : Type 0} → List Turn → A → Exec (World S) A → Exec (World S) A
  unfolding dropped idle
  statement ts x m = do a ← (λ w. dropped x (m w)); idle ts; pure a

-- The arguments of the three jobs.
abbrev pub args1 : Fields
args1 = field "arg1" (string "1") (field "arg2" (string "2") (field "arg3" (string "3") no_fields))

abbrev pub args2 : Fields
args2 =
    field "arg4" (string "4")
      (field "arg5" (string "5") (field "arg6" (string "6") (field "arg7" (string "7") no_fields)))

abbrev pub args3 : Fields
args3 = field "arg8" (string "8") (field "arg9" (string "9") no_fields)

-- The registered name of `PrintMsg`.
abbrev pub print_msg_name : String
print_msg_name = "github.com/kurtloong/agscheduler/examples.PrintMsg"
