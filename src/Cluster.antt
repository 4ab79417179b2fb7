-- ===== src/Cluster.antt =====
-- cluster.go: the nodes of a cluster, their registration, choice and check. The link back to the
-- scheduler is left out, and the calls over the network are in `Remote`.
pub mod Remote
pub mod Registry
pub mod Choice
pub mod Heartbeats
pub mod Reports
use agscheduler.Base.{
  ℕ, ◌*◌, String, Bool, true, false, Option, none, some, List, [], ◌∷◌, ◌++◌, length, get_elem?,
  ltb, if◌then◌else◌, ◌==◌, contains, not, ◌&&◌,
}
use agscheduler.Base.Int.{pos, negsuc}
use agscheduler.Base.Dict.{Dict, lookup, insert}
use agscheduler.Errors.{node_not_found, slice_bounds}
use agscheduler.Result.{Result, ok, err, panic}
use agscheduler.Time.{Time, Duration, sub_time, minute, millisecond}
use agscheduler.Job.Init.{new_id}

-- The `map[string]any` of one node: `registerNode` writes every key.
pub record NodeInfo : Type 0 where
  pub id : String
  pub main_endpoint : String
  pub endpoint : String
  pub endpoint_http : String
  pub scheduler_endpoint : String
  pub queue : String
  pub health : Bool
  pub register_time : Time
  pub last_heartbeat_time : Time

-- By queue, then by node identifier.
abbrev pub NodeMap : Type 0
NodeMap = Dict (Dict NodeInfo)

-- What travels between nodes, and what a `ClusterNode` is apart from its goroutines.
pub record Node : Type 0 where
  pub id : String
  pub main_endpoint : String
  pub endpoint : String
  pub endpoint_http : String
  pub scheduler_endpoint : String
  pub queue : String
  pub node_map : NodeMap

-- The fields of `Node`, and whether `checkNode` was started.
pub record ClusterNode : Type 0 where
  pub node : Node
  pub open node use *
  pub checking : Bool

-- `toClusterNode`
unfoldable pub to_cluster_node : Node → ClusterNode
to_cluster_node n = record { node = n; checking = false }

-- `toNode`
unfoldable pub to_node : ClusterNode → Node
to_node cn = cn.node

-- `setNodeMap`
unfoldable pub set_node_map : NodeMap → ClusterNode → ClusterNode
set_node_map m cn = record cn { node = record cn.node { node_map = m } }

-- `cn.nodeMap[queue]`, empty where the key is missing.
unfoldable pub queue_nodes : String → NodeMap → Dict NodeInfo
queue_nodes queue m = elim (lookup queue m) [ none ↦ [] | some v ↦ v ]

-- `cn.nodeMap[queue][id]`
unfoldable pub find_node : String → String → NodeMap → Option NodeInfo
unfolding queue_nodes
find_node queue id m = lookup id (queue_nodes queue m)

register_time_of : Time → Option NodeInfo → Time
register_time_of now none = now
register_time_of now (some v) = v.register_time

-- The entry that `registerNode` writes.
unfoldable pub node_info : Time → Option NodeInfo → Node → NodeInfo
unfolding register_time_of
node_info now old n = record {
  id = n.id;
  main_endpoint = n.main_endpoint;
  endpoint = n.endpoint;
  endpoint_http = n.endpoint_http;
  scheduler_endpoint = n.scheduler_endpoint;
  queue = n.queue;
  health = true;
  register_time = register_time_of now old;
  last_heartbeat_time = now;
}

unfoldable pub register_in : Time → Node → NodeMap → NodeMap
unfolding node_info
register_in now n m =
    let entry = node_info now (find_node n.queue n.id m) n in
    insert n.queue (insert n.id entry (queue_nodes n.queue m)) m

-- `registerNode`; `now` is its reading of the clock.
unfoldable pub register_node : Time → Node → ClusterNode → ClusterNode
unfolding register_in set_node_map
register_node now n cn = set_node_map (register_in now n cn.node_map) cn

-- The node that `choiceNode` builds from an entry: it has no `nodeMap`.
unfoldable pub candidate : String → NodeInfo → Node
candidate id v = record {
  id = id;
  main_endpoint = v.main_endpoint;
  endpoint = v.endpoint;
  endpoint_http = v.endpoint_http;
  scheduler_endpoint = v.scheduler_endpoint;
  queue = v.queue;
  node_map = [];
}

-- The inner loop of `choiceNode`.
unfoldable pub healthy_nodes : Dict NodeInfo → List Node
unfolding candidate
healthy_nodes [] = []
healthy_nodes ((id, v) ∷ vs) =
    let rest = healthy_nodes vs in if v.health then candidate id v ∷ rest else rest

is_empty : List String → Bool
is_empty [] = true
is_empty (q ∷ qs) = false

-- `len(queues) != 0 && !slices.Contains(queues, q)` is the test to skip a queue.
unfoldable pub skips : List String → String → Bool
unfolding is_empty
skips queues q = not (is_empty queues) && not (contains queues q)

-- The outer loop of `choiceNode`.
unfoldable pub candidates : List String → NodeMap → List Node
unfolding healthy_nodes skips
candidates queues [] = []
candidates queues ((q, v) ∷ m) =
    let rest = candidates queues m in if skips queues q then rest else healthy_nodes v ++ rest

-- `cns[i]`
pick : List Node → ℕ → Result Node
pick cns i = elim (get_elem? cns i) [ none ↦ panic slice_bounds | some n ↦ ok n ]

-- The end of `choiceNode`, over the nodes that it collected.
unfoldable pub pick_any : (draw : ℕ → ℕ) → List Node → Result Node
unfolding pick
pick_any draw [] = err node_not_found
pick_any draw (c ∷ cs) = pick (c ∷ cs) (draw (length (c ∷ cs)))

-- `choiceNode`; `draw` is its call of `rand.Intn`.
unfoldable pub choice_node : (draw : ℕ → ℕ) → List String → ClusterNode → Result Node
unfolding pick_any
choice_node draw queues cn = pick_any draw (candidates queues cn.node_map)

-- `d > n` for a limit of n nanoseconds.
unfoldable pub exceeds : Duration → ℕ → Bool
exceeds (pos m) n = ltb n m
exceeds (negsuc m) n = false

abbrev pub delete_after : ℕ
delete_after = 5 * minute

abbrev pub unhealthy_after : ℕ
unhealthy_after = 400 * millisecond

-- The inner loop of one round of `checkNode`; `self` is the identifier of the node that checks.
unfoldable pub check_queue : (self : String) → (now : Time) → Dict NodeInfo → Dict NodeInfo
unfolding exceeds
check_queue self now [] = []
check_queue self now ((id, v) ∷ vs) =
    let rest = check_queue self now vs in
    let age = sub_time now v.last_heartbeat_time in
    if self == id
    then (id, v) ∷ rest
    else if exceeds age delete_after
    then rest
    else if exceeds age unhealthy_after
    then (id, record v { health = false }) ∷ rest
    else (id, v) ∷ rest

unfoldable pub check_map : (self : String) → (now : Time) → NodeMap → NodeMap
unfolding check_queue
check_map self now [] = []
check_map self now ((q, v) ∷ m) = (q, check_queue self now v) ∷ check_map self now m

-- One round of `checkNode`.
unfoldable pub check_nodes : (now : Time) → ClusterNode → ClusterNode
unfolding check_map set_node_map
check_nodes now cn = set_node_map (check_map cn.id now cn.node_map) cn

or_default : String → String → String
or_default s d = if s == "" then d else s

-- The defaults of `init`: `MainEndpoint` is filled in after `Endpoint`.
unfoldable pub fill_defaults : Node → Node
unfolding or_default
fill_defaults n =
    let endpoint = or_default n.endpoint "127.0.0.1:36380" in
    record n {
      endpoint = endpoint;
      main_endpoint = or_default n.main_endpoint endpoint;
      endpoint_http = or_default n.endpoint_http "127.0.0.1:36390";
      scheduler_endpoint = or_default n.scheduler_endpoint "127.0.0.1:36360";
      queue = or_default n.queue "default";
    }

-- `setId`
unfoldable pub set_id : (uuid : String) → ClusterNode → Result ClusterNode
set_id uuid cn = elim (new_id uuid) [
  | none ↦ panic slice_bounds
  | some id ↦ ok (record cn { node = record cn.node { id = id } })
]

-- The end of `init`: the node registers itself, and the main node starts `checkNode`.
unfoldable pub join_self : (now : Time) → ClusterNode → ClusterNode
join_self now cn =
    let joined = register_node now cn.node cn in
    if cn.main_endpoint == cn.endpoint then record joined { checking = true } else joined

unfoldable pub init : (uuid : String) → (now : Time) → ClusterNode → Result ClusterNode
unfolding fill_defaults set_id join_self
init uuid now cn = elim (set_id uuid (record cn { node = fill_defaults cn.node })) [
  | ok named ↦ ok (join_self now named)
  | err e ↦ err e
  | panic p ↦ panic p
]
