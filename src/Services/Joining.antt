-- ===== src/Services/Joining.antt =====
-- services/cluster.go, cluster_http.go and cluster_rpc.go: the services of a node of a cluster.
-- Whether an address could be bound, and what the network made of a call, are arguments.
use agscheduler.Base.{
  ℕ, List, [], ◌∷◌, String, ◌≡◌, ◌≢◌, refl, ◌∙◌, Option, none, some, if◌then◌else◌, ◌==◌, eq_refl,
  ne→test,
}
use agscheduler.Errors.{cluster_listen_failed, join_failed}
use agscheduler.Result.{Result, ok, err, panic}
use agscheduler.Exec.{Exec, ◌>>◌}
use agscheduler.Time.{Time}
use agscheduler.Cluster.{
  Node, ClusterNode, NodeMap, to_node, find_node, node_info, register_in, register_node,
}
use agscheduler.Services.Server.{Setup, route, listen, get, start_rpc}
use agscheduler.Cluster.Registry.{find_node-register_in}
use agscheduler.Cluster.Remote.{Outcome, replied, rpc_register, rpc_ping, register_node_remote}

-- `CRPCService.Register` and `CRPCService.Ping`, which never return an error.
unfoldable pub register : (now : Time) → (args : Node) → ClusterNode → Node × ClusterNode
register now args cn = rpc_register now args cn

unfoldable pub ping : (now : Time) → (args reply : Node) → ClusterNode → Node × ClusterNode
ping now args reply cn = rpc_ping now args reply cn

-- `CRPCService.Nodes`, and the data of `GET /cluster/nodes`.
unfoldable pub nodes : ClusterNode → NodeMap
nodes cn = cn.node_map

-- The answer of `GET /cluster/nodes`.
pub record NodesResponse : Type 0 where
  pub status : ℕ
  pub data_part : NodeMap
  pub error : String

unfoldable pub get_nodes : ClusterNode → NodesResponse
unfolding nodes
get_nodes cn = record { status = 200; data_part = nodes cn; error = "" }

-- `Start` of clusterHTTPService, which never returns an error: what it tells gin, in order.
unfoldable pub start_http : {R : Type 0} → ClusterNode → List (Setup R)
start_http cn = route get "/cluster/nodes" ∷ listen cn.endpoint_http ∷ []

-- The error of `RegisterNodeRemote`, wrapped.
unfoldable pub joined : Result (Unit {0}) → Result (Unit {0})
joined (ok u) = ok tt
joined (err e) = err (join_failed e)
joined (panic p) = panic p

-- The end of `ClusterService.Start`: a worker registers at the main node.
unfoldable pub join_main : Outcome → Exec ClusterNode Unit
unfolding joined
join_main outcome cn =
    if cn.main_endpoint == cn.endpoint
    then (ok tt, cn)
    else (let (r, after) = register_node_remote outcome cn in (joined r, after))

-- `Start` of clusterRPCService, up to its goroutine; the argument is what `net.Listen` reports.
unfoldable pub start_cluster_rpc : (bind : String → Option String) → Exec ClusterNode Unit
start_cluster_rpc bind cn = elim (bind cn.endpoint) [
  | none ↦ (ok tt, cn)
  | some e ↦ (err (cluster_listen_failed e), cn)
]

-- `ClusterService.Start`; the first two arguments are what `net.Listen` reports to the service of
-- the scheduler and to that of the cluster. The HTTP service reports nothing.
unfoldable pub start : (rpc cluster : String → Option String) → Outcome → Exec ClusterNode Unit
unfolding start_rpc start_cluster_rpc join_main
start rpc cluster outcome = do
  (λ cn. ((start_rpc rpc (record { address = cn.scheduler_endpoint })).0, cn))
  start_cluster_rpc cluster
  join_main outcome

-- Where both addresses can be bound, what is left is to join the main node.
start_binds :
    (rpc cluster : String → Option String) (outcome : Outcome) (cn : ClusterNode)
    → ((address : String) → rpc address ≡ none)
    → cluster cn.endpoint ≡ none
    → start rpc cluster outcome cn ≡ join_main outcome cn
unfolding start start_rpc start_cluster_rpc
start_binds rpc cluster outcome cn opened listens =
    let address =
      if cn.scheduler_endpoint == "" then "127.0.0.1:36360" else cn.scheduler_endpoint in
    rw (opened address, listens, start, start_rpc, start_cluster_rpc) refl

-- When a node whose main endpoint is another starts its services, every address can be bound for
-- the service of its scheduler and its own for that of the cluster, and the main node has answered
-- its registration: the start succeeds, the worker knows the same nodes as the main node, and
-- among them itself, under its queue and identifier, healthy, with its data, the time of this
-- registration as its last heartbeat, and as its register time that of its former entry, if it had
-- one.
pub worker_joins :
    (now : Time) (worker main : ClusterNode) (rpc cluster : String → Option String)
    → worker.main_endpoint ≢ worker.endpoint
    → ((address : String) → rpc address ≡ none)
    → cluster worker.endpoint ≡ none
    → let (answer, after) = register now (to_node worker) main in
      let (r, joined_worker) = start rpc cluster (replied answer) worker in
      (r ≡ ok tt)
      × (nodes joined_worker ≡ nodes after)
      × (find_node worker.queue worker.id (nodes joined_worker)
          ≡ some (node_info now (find_node worker.queue worker.id main.node_map) (to_node worker)))
unfolding join_main joined register nodes rpc_register register_node_remote register_node to_node
worker_joins now worker main rpc cluster apart opened listens =
    let listed : find_node worker.queue worker.id (register_in now worker.node main.node_map)
        ≡ some (node_info now (find_node worker.queue worker.id main.node_map) worker.node) =
      find_node-register_in now worker.node main.node_map worker.queue worker.id
      ∙ rw (eq_refl worker.queue, eq_refl worker.id) refl in
    rw
      (
        start_binds rpc cluster _ worker opened listens,
        ne→test worker.main_endpoint worker.endpoint apart,
      )
      (refl, refl, listed)
