-- ===== src/Examples/Cluster.antt =====
-- examples/cluster: `main` of cluster_main.go and of cluster_node.go. What `flag.Parse` makes of the
-- command line, what `net.Listen` reports and what the network makes of a call are arguments.
use agscheduler.Base.{ℕ, String, Option, none, some, [], false}
use agscheduler.Errors.{nil_cluster_node}
use agscheduler.Result.{panic}
use agscheduler.Exec.{Exec, ◌>>◌}
use agscheduler.Env.{Env}
use agscheduler.Store.Memory as Memory
use agscheduler.Store.Memory.{MemoryStore, memory_store}
use agscheduler.Cluster.{ClusterNode}
use agscheduler.Cluster.Remote.{Outcome}
use agscheduler.Scheduler.{World, set_store, set_cluster_node}
use agscheduler.Services.Joining.{start}
use agscheduler.Examples.Stores.{register_print}

-- The flags.
pub record Flags : Type 0 where
  pub endpoint : String  -- -e
  pub endpoint_http : String  -- -eh
  pub scheduler_endpoint : String  -- -se
  pub queue : String  -- -q

-- Where the command line has none.
abbrev pub main_flags : Flags
main_flags = record {
  endpoint = "127.0.0.1:36380";
  endpoint_http = "127.0.0.1:36390";
  scheduler_endpoint = "127.0.0.1:36360";
  queue = "default";
}

abbrev pub node_flags : Flags
node_flags = record {
  endpoint = "127.0.0.1:36381";
  endpoint_http = "127.0.0.1:36391";
  scheduler_endpoint = "127.0.0.1:36361";
  queue = "node";
}

-- `-me` of cluster_node.go, where the command line has none.
abbrev pub default_main : String
default_main = "127.0.0.1:36380"

-- `&agscheduler.ClusterNode{…}`
unfoldable pub new_node : (main_endpoint : String) → Flags → ClusterNode
new_node main_endpoint f = record {
  node = record {
    id = "";
    main_endpoint = main_endpoint;
    endpoint = f.endpoint;
    endpoint_http = f.endpoint_http;
    scheduler_endpoint = f.scheduler_endpoint;
    queue = f.queue;
    node_map = [];
  };
  checking = false;
}

-- A method of the node that the scheduler is bound to.
unfoldable pub on_node : {S : Type 0} → Exec ClusterNode Unit → Exec (World S) Unit
on_node m w = elim w.cluster_node [
  | none ↦ (panic nil_cluster_node, w)
  | some cn ↦ (let (r, after) = m cn in (r, record w { cluster_node = some after }))
]

module _ (env : Env) (print_msg : ℕ) (rpc cluster : String → Option String)
    (outcome : Outcome) where
  -- What both do with their node, up to the `select` that waits for ever.
  unfoldable pub run_node : ClusterNode → Exec (World MemoryStore) Unit
  run_node cn = do
    register_print env (memory_store env.sort) print_msg
    set_store env (memory_store env.sort) Memory.empty
    set_cluster_node env (memory_store env.sort) cn
    on_node (start rpc cluster outcome)

  -- cluster_main.go
  unfoldable pub cluster_main : Flags → Exec (World MemoryStore) Unit
  unfolding run_node
  cluster_main f = run_node (new_node f.endpoint f)

  -- cluster_node.go
  unfoldable pub worker_main : (main_endpoint : String) → Flags → Exec (World MemoryStore) Unit
  unfolding run_node
  worker_main main_endpoint f = run_node (new_node main_endpoint f)
