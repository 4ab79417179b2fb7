-- ===== src/Services/Delivery.antt =====
-- A job on its way from the node whose scheduler places it to the node that runs it.
use agscheduler.Base.{String, ◌≡◌, List, [], ◌∷◌, ◌++◌, if◌then◌else◌, ◌==◌, Bool, ◌&&◌}
use agscheduler.Result.{Result}
use agscheduler.Job.{Job}
use agscheduler.Job.Proto.{StructPb}
use agscheduler.Env.{Env}
use agscheduler.Store.{Store}
use agscheduler.Cluster.{Node}
use agscheduler.Scheduler.{Event, World, ran, unregistered, sent, logged}
use agscheduler.Services.Rpc as Rpc
use agscheduler.Services.Rpc.{call, remote_request}

-- The jobs that were handed to `_runJobRemote`, with the nodes that they are for.
unfoldable pub sent_jobs : List Event → List (Node × Job)
sent_jobs [] = []
sent_jobs (sent n j ∷ es) = (n, j) ∷ sent_jobs es
sent_jobs (ran j ∷ es) = sent_jobs es
sent_jobs (unregistered j ∷ es) = sent_jobs es
sent_jobs (logged e ∷ es) = sent_jobs es

module _ (env : Env) {S Struct : Type 0} (pb : StructPb Struct) (store : Store S) where
  -- The goroutines of `_runJobRemote`, one after the other, as the node sees them whose scheduler
  -- listens at `address`. Whether a request arrives there is an argument: the sender dials the
  -- endpoint of the scheduler, and only logs an error.
  unfoldable pub deliver_all :
      (arrives : Node → Job → Bool) → (address : String) → List (Node × Job) → World S → World S
  deliver_all arrives address [] w = w
  deliver_all arrives address ((n, j) ∷ rest) w = deliver_all arrives address rest (
      if (n.scheduler_endpoint == address) && arrives n j
      then (call env pb store (remote_request env pb store j) w).1
      else w)

-- The jobs that a call sent, given the events of the state before it.
abbrev pub IsSent : List Event → List Event → List (Node × Job) → Type 0
IsSent before later jobs = sent_jobs later ≡ sent_jobs before ++ jobs
