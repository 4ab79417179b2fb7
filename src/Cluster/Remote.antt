-- ===== src/Cluster/Remote.antt =====
-- The calls of cluster.go between a worker and the main node: `RPCRegister`, `RPCPing`,
-- `RegisterNodeRemote`, `pingRemote` and one round of `heartbeatRemote`. What the network made of a
-- call is an argument.
use agscheduler.Base.{ℕ, ◌*◌, String}
use agscheduler.Errors.{
  connect_failed, register_failed, register_timeout, ping_failed, ping_timeout,
}
use agscheduler.Result.{Result, ok, err, panic}
use agscheduler.Exec.{Exec}
use agscheduler.Time.{Time, second, millisecond}
use agscheduler.Cluster.{Node, ClusterNode, to_cluster_node, set_node_map, register_node}

-- `RPCRegister`: the state and the reply. `reply` is filled field by field from the main node.
unfoldable pub rpc_register : (now : Time) → (args : Node) → ClusterNode → Node × ClusterNode
unfolding to_cluster_node
rpc_register now args cn =
    let after = register_node now (to_cluster_node args).node cn in (after.node, after)

-- `RPCPing` fills only `NodeMap` of the reply that it is given.
unfoldable pub rpc_ping : (now : Time) → (args reply : Node) → ClusterNode → Node × ClusterNode
unfolding to_cluster_node
rpc_ping now args reply cn =
    let after = register_node now (to_cluster_node args).node cn in
    (record reply { node_map = after.node_map }, after)

-- The outcome of `rpc.DialHTTP` and of the call under its timeout.
pub data Outcome : Type 0 where
  dial_failed : String → Outcome
  call_failed : String → Outcome
  timed_out : Outcome
  replied : Node → Outcome

-- `RegisterNodeRemote`; its request is `to_node cn`. On success `heartbeatRemote` starts.
unfoldable pub register_node_remote : Outcome → Exec ClusterNode Unit
register_node_remote (dial_failed e) cn = (err (connect_failed cn.main_endpoint e), cn)
register_node_remote (call_failed e) cn = (err (register_failed e), cn)
register_node_remote timed_out cn = (err (register_timeout cn.main_endpoint), cn)
register_node_remote (replied main) cn = (ok tt, set_node_map main.node_map cn)

-- `pingRemote`
unfoldable pub ping_remote : Outcome → Exec ClusterNode Unit
ping_remote (dial_failed e) cn = (err (connect_failed cn.main_endpoint e), cn)
ping_remote (call_failed e) cn = (err (ping_failed e), cn)
ping_remote timed_out cn = (err (ping_timeout cn.main_endpoint), cn)
ping_remote (replied main) cn = (ok tt, set_node_map main.node_map cn)

abbrev pub heartbeat_interval : ℕ
heartbeat_interval = 200 * millisecond

next_delay : Result (Unit {0}) → ℕ
next_delay (ok u) = heartbeat_interval
next_delay (err e) = second
next_delay (panic p) = second

-- One round of `heartbeatRemote`: when the timer fires next, and the node after it.
unfoldable pub heartbeat : Outcome → ClusterNode → ℕ × ClusterNode
unfolding ping_remote next_delay
heartbeat outcome cn = let (result, after) = ping_remote outcome cn in (next_delay result, after)
