-- ===== src/Cluster/Heartbeats.antt =====
-- How long a heartbeat of a worker keeps it healthy at the main node.
use agscheduler.Base.{◌+◌, ◌≤◌, ◌≡◌, refl, ◌∙◌, some, arith, eq_refl, true}
use agscheduler.Time.{Time}
use agscheduler.Cluster.{
  Node, ClusterNode, find_node, node_info, register_in, register_node, check_nodes, unhealthy_after,
}
use agscheduler.Cluster.Registry.{
  DistinctNodes, find_node-register_in, register_in-DistinctNodes, find_node-check_nodes,
}
use agscheduler.Cluster.Remote.{rpc_ping, ping_remote, replied}

-- When a worker pings a main node whose registry has distinct identifiers in each queue, a check
-- no later than 400 ms after finds the worker under its queue and identifier, healthy, with the
-- data and the time of the ping; and a worker that has the reply knows the same nodes as the main
-- node after the ping.
pub ping_keeps_healthy :
    (pinged checked : Time) (worker reply : Node) (here : ClusterNode) (main : ClusterNode)
    → DistinctNodes main.node_map
    → checked ≤ pinged + unhealthy_after
    → let (answer, after) = rpc_ping pinged worker reply main in
      let entry = node_info pinged (find_node worker.queue worker.id main.node_map) worker in
      (find_node worker.queue worker.id (check_nodes checked after).node_map ≡ some entry)
      × (entry.health ≡ true)
      × (entry.last_heartbeat_time ≡ pinged)
      × ((ping_remote (replied answer) here).1.node_map ≡ after.node_map)
unfolding rpc_ping register_node ping_remote node_info
ping_keeps_healthy pinged checked worker reply here main distinct soon =
    let entry = node_info pinged (find_node worker.queue worker.id main.node_map) worker in
    let after = register_node pinged worker main in
    let listed : find_node worker.queue worker.id (register_in pinged worker main.node_map)
        ≡ some entry =
      find_node-register_in pinged worker main.node_map worker.queue worker.id
      ∙ rw (eq_refl worker.queue, eq_refl worker.id) refl in
    let kept =
      find_node-check_nodes checked after worker.queue worker.id entry
        (register_in-DistinctNodes pinged worker main.node_map distinct) listed in
    (kept ∙ ground arith, refl, refl, refl)
