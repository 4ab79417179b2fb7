-- ===== src/Tests/Clusters.antt =====
-- A cluster whose main node has heard of one worker, and a job on its way there.
use agscheduler.Base.{◌+◌, ◌*◌, ◌≤◌, ◌≡◌, ◌⊎◌, String, some, refl, List, [], ◌∷◌, true, contains}
use agscheduler.Base.Dict.{lookup, insert}
use agscheduler.Result.{ok}
use agscheduler.Time.{Time, sub_time, second}
use agscheduler.Job.{Job}
use agscheduler.Cluster.{
  ClusterNode, candidates, check_nodes, choice_node, unhealthy_after, register_node, queue_nodes,
}
use agscheduler.Cluster.Remote.{rpc_register}
use agscheduler.Cluster.Reports.{NodeEvent, registered, after_events, Heard, chosen_node_reported}
use agscheduler.Scheduler.{World}
use agscheduler.Store.Memory.{MemoryStore}
use agscheduler.Tests.Samples.{running}
use agscheduler.Tests.Stores.{two_jobs}
use agscheduler.Tests.Calls.{with_args}
use agscheduler.Tests.Nodes.{worker, main_node}

-- A main node that knows no node, and what it hears.
abbrev new_main : ClusterNode
new_main = record main_node { node = record main_node.node { node_map = [] } }

abbrev heard : List NodeEvent
heard = registered (100 * second) worker ∷ []

abbrev asked : List String
asked = "q" ∷ []

chosen_after :
    choice_node (λ n. 0) asked (check_nodes (100 * second) (after_events heard new_main))
    ≡ ok (record worker { node_map = [] })
unfolding choice_node candidates check_nodes after_events rpc_register register_node insert
    queue_nodes lookup sub_time
chosen_after = refl

chosen_node_reported_example :
    ((asked ≡ []) ⊎ (contains asked worker.queue ≡ true))
    × ((worker.id ≡ new_main.id)
        ⊎ ((t : Time) × Heard heard "q" "w" t × (100 * second ≤ t + unhealthy_after)))
chosen_node_reported_example =
    chosen_node_reported (λ n. 0) asked heard (100 * second) new_main
      (record worker { node_map = [] }) refl chosen_after

-- The job that carries arguments, for the queue "q".
abbrev queued : Job
queued = record with_args { queues = "q" ∷ [] }

abbrev placing : World MemoryStore
placing = record (running two_jobs) { cluster_node = some main_node }
