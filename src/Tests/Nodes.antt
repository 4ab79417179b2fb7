-- ===== src/Tests/Nodes.antt =====
-- A main node, a worker of the queue "q", and jobs that are placed between them.
use agscheduler.Base.{◌+◌, ◌*◌, ◌≡◌, refl, true, false, some, none, [], ◌∷◌, arith, test→ne}
use agscheduler.Result.{ok}
use agscheduler.Time.{second, millisecond}
use agscheduler.Job.{Job}
use agscheduler.Cluster.{
  NodeInfo, Node, ClusterNode, find_node, node_info, register_in, candidates, choice_node,
  check_nodes, queue_nodes, candidate,
}
use agscheduler.Cluster.Registry.{find_node-register_in, find_node-check_nodes}
use agscheduler.Cluster.Choice.{IsOffered, choice_node-IsOffered, choice_node_total}
use agscheduler.Cluster.Remote.{rpc_ping, ping_remote, replied}
use agscheduler.Cluster.Heartbeats.{ping_keeps_healthy}
use agscheduler.Base.Dict.{lookup}
use agscheduler.Services.Joining.{register, start, nodes, worker_joins}
use agscheduler.Cluster.{to_node}
use agscheduler.Tests.Samples.{every_minute}

abbrev pub worker : Node
worker = record {
  id = "w";
  main_endpoint = "host:36380";
  endpoint = "host:36381";
  endpoint_http = "host:36391";
  scheduler_endpoint = "host:36361";
  queue = "q";
  node_map = [];
}

abbrev pub worker_info : NodeInfo
worker_info = record {
  id = "w";
  main_endpoint = "host:36380";
  endpoint = "host:36381";
  endpoint_http = "host:36391";
  scheduler_endpoint = "host:36361";
  queue = "q";
  health = true;
  register_time = 90 * second;
  last_heartbeat_time = 100 * second;
}

abbrev pub main_node : ClusterNode
main_node = record {
  node = record worker {
    id = "n";
    endpoint = "host:36380";
    queue = "default";
    node_map = ("q", ("w", worker_info) ∷ []) ∷ [];
  };
  checking = true;
}

find_node-register_in_example :
    find_node "q" "w" (register_in (101 * second) worker main_node.node_map)
    ≡ some (record worker_info { last_heartbeat_time = 101 * second })
unfolding find_node queue_nodes node_info lookup
find_node-register_in_example =
    find_node-register_in (101 * second) worker main_node.node_map "q" "w"

find_node-check_nodes_example :
    find_node "q" "w" (check_nodes (101 * second) main_node).node_map
    ≡ some (record worker_info { health = false })
unfolding find_node queue_nodes lookup
find_node-check_nodes_example =
    find_node-check_nodes (101 * second) main_node "q" "w" worker_info ((refl, tt), tt) refl

worker_chosen : choice_node (λ n. 0) ("q" ∷ []) main_node ≡ ok (candidate "w" worker_info)
unfolding choice_node candidates
worker_chosen = refl

choice_node-IsOffered_example : IsOffered ("q" ∷ []) main_node.node_map (candidate "w" worker_info)
unfolding candidate
choice_node-IsOffered_example =
    choice_node-IsOffered (λ n. 0) ("q" ∷ []) main_node (candidate "w" worker_info) worker_chosen

choice_node_total_example : (d : Node) × (choice_node (λ n. 0) ("q" ∷ []) main_node ≡ ok d)
choice_node_total_example =
    choice_node_total (λ n. 0) ("q" ∷ []) main_node (candidate "w" worker_info) (λ n h. h)
      choice_node-IsOffered_example

ping_keeps_healthy_example :
    let (answer, after) = rpc_ping (101 * second) worker worker main_node in
    let entry = record worker_info { last_heartbeat_time = 101 * second } in
    (find_node "q" "w" (check_nodes (101 * second + 400 * millisecond) after).node_map ≡ some entry)
    × (true ≡ true)
    × (101 * second ≡ 101 * second)
    × ((ping_remote (replied answer) main_node).1.node_map ≡ after.node_map)
unfolding find_node queue_nodes node_info lookup
ping_keeps_healthy_example =
    ping_keeps_healthy (101 * second) (101 * second + 400 * millisecond) worker worker main_node
      main_node ((refl, tt), tt) (omega arith)

-- A job for the queue "q".
abbrev queued : Job
queued = record every_minute { queues = "q" ∷ [] }

-- The worker as a node that has joined no cluster.
abbrev lone_worker : ClusterNode
lone_worker = record { node = worker; checking = false }

worker_joins_example :
    let (answer, after) = register (101 * second) (to_node lone_worker) main_node in
    let (r, joined_worker) = start (λ a. none) (λ a. none) (replied answer) lone_worker in
    (r ≡ ok tt)
    × (nodes joined_worker ≡ nodes after)
    × (find_node "q" "w" (nodes joined_worker)
        ≡ some (record worker_info { last_heartbeat_time = 101 * second }))
unfolding find_node queue_nodes node_info lookup to_node
worker_joins_example =
    worker_joins (101 * second) lone_worker main_node (λ a. none) (λ a. none)
      (test→ne "host:36380" "host:36381" refl) (λ a. refl) refl
