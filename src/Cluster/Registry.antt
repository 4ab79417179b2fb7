-- ===== src/Cluster/Registry.antt =====
-- What the registry of nodes holds after a registration and after a check.
use agscheduler.Base.{
  ◌+◌, String, ◌≡◌, refl, ◌∙◌, ap, ◌||◌, leb, false, Option, none, some, [], ◌∷◌, arith, ◌&&◌,
  if◌then◌else◌, ◌==◌, eq_iff,
}
use agscheduler.Base.Dict.{Dict, lookup, insert, lookup-insert}
use agscheduler.Time.{Time, sub_time}
use agscheduler.Cluster.{
  NodeInfo, NodeMap, Node, ClusterNode, queue_nodes, find_node, node_info, register_in,
  delete_after, unhealthy_after, check_queue, check_map, check_nodes,
}

-- The nodes of a queue after the registration of `n`.
queue_nodes-insert :
    (q k : String) (v : Dict NodeInfo) (m : NodeMap)
    → queue_nodes q (insert k v m) ≡ (if k == q then v else queue_nodes q m)
unfolding queue_nodes
queue_nodes-insert q k v m = ground (arith, lookup-insert k q v m)

-- After a node has registered, the registry holds its entry under its queue and identifier, and
-- under every other queue and identifier what it held before.
pub find_node-register_in :
    (now : Time) (n : Node) (m : NodeMap) (q i : String)
    → find_node q i (register_in now n m) ≡ (
        if (n.queue == q) && (n.id == i)
        then some (node_info now (find_node n.queue n.id m) n)
        else find_node q i m)
unfolding find_node register_in
find_node-register_in now n m q i =
    let old = queue_nodes n.queue m in
    let entry = node_info now (find_node n.queue n.id m) n in
    ground (
      arith,
      queue_nodes-insert q n.queue (insert n.id entry old) m,
      lookup-insert n.id i entry old,
      eq_iff n.queue q,
    )

-- The keys of a map are distinct.
abbrev pub DistinctKeys {ℓ} : {V : Type ℓ} → Dict V → Type ℓ
DistinctKeys [] = Unit
DistinctKeys ((k, v) ∷ m) = (lookup k m ≡ none) × DistinctKeys m

module _ (self : String) (now : Time) where
  -- What a check makes of one entry, by the clock alone.
  unfoldable pub fate : String → NodeInfo → Option NodeInfo
  fate i v =
      if self == i || leb now (v.last_heartbeat_time + unhealthy_after)
      then some v
      else if leb now (v.last_heartbeat_time + delete_after)
      then some (record v { health = false })
      else none

  fate_of : String → Option NodeInfo → Option NodeInfo
  fate_of i none = none
  fate_of i (some v) = fate i v

  lookup-check_queue_missing :
      (i : String) (vs : Dict NodeInfo)
      → lookup i vs ≡ none
      → lookup i (check_queue self now vs) ≡ none
  unfolding lookup check_queue
  lookup-check_queue_missing i [] h = refl
  lookup-check_queue_missing i ((k, v) ∷ vs) h = ground (arith, lookup-check_queue_missing i vs)

  lookup-check_queue :
      (i : String) (vs : Dict NodeInfo)
      → DistinctKeys vs
      → lookup i (check_queue self now vs) ≡ fate_of i (lookup i vs)
  unfolding lookup check_queue fate fate_of sub_time
  lookup-check_queue i [] d = refl
  lookup-check_queue i ((k, v) ∷ vs) d = ground (
    arith,
    lookup-check_queue i vs d.1,
    lookup-check_queue_missing k vs d.0,
    eq_iff k i,
    eq_iff self k,
    eq_iff self i,
  )

-- Every queue of a registry has distinct identifiers.
abbrev pub DistinctNodes : NodeMap → Type 0
DistinctNodes [] = Unit
DistinctNodes ((q, v) ∷ m) = DistinctKeys v × DistinctNodes m

DistinctNodes-queue_nodes :
    (q : String) (m : NodeMap) → DistinctNodes m → DistinctKeys (queue_nodes q m)
unfolding queue_nodes lookup
DistinctNodes-queue_nodes q [] d = tt
DistinctNodes-queue_nodes q ((k, v) ∷ m) d = ground (arith, DistinctNodes-queue_nodes q m d.1)

queue_nodes-check_map :
    (self : String) (now : Time) (q : String) (m : NodeMap)
    → queue_nodes q (check_map self now m) ≡ check_queue self now (queue_nodes q m)
unfolding queue_nodes lookup check_map
queue_nodes-check_map self now q [] = refl
queue_nodes-check_map self now q ((k, v) ∷ m) = ground (arith, queue_nodes-check_map self now q m)

-- In a registry whose queues have distinct identifiers, a round of `checkNode` keeps the entry of
-- the node itself and of every node that was heard of within 400 ms, marks the entries of those
-- heard of within five minutes as unhealthy, and forgets the others.
pub find_node-check_nodes :
    (now : Time) (cn : ClusterNode) (q i : String) (v : NodeInfo)
    → DistinctNodes cn.node_map
    → find_node q i cn.node_map ≡ some v
    → find_node q i (check_nodes now cn).node_map ≡ (
        if cn.id == i || leb now (v.last_heartbeat_time + unhealthy_after)
        then some v
        else if leb now (v.last_heartbeat_time + delete_after)
        then some (record v { health = false })
        else none)
unfolding find_node check_nodes fate fate_of
find_node-check_nodes now cn q i v d h = rw queue_nodes-check_map (
    lookup-check_queue cn.id now i (queue_nodes q cn.node_map)
      (DistinctNodes-queue_nodes q cn.node_map d)
    ∙ ap (fate_of cn.id now i) h)

insert-DistinctKeys {ℓ} :
    {V : Type ℓ} (k : String) (v : V) (m : Dict V) → DistinctKeys m → DistinctKeys (insert k v m)
unfolding lookup insert
insert-DistinctKeys k v [] d = (refl, tt)
insert-DistinctKeys k v ((j, w) ∷ m) d =
    ground (arith, insert-DistinctKeys k v m d.1, lookup-insert k j v m, eq_iff j k, eq_iff k j)

insert-DistinctNodes :
    (q : String) (vs : Dict NodeInfo) (m : NodeMap)
    → DistinctKeys vs
    → DistinctNodes m
    → DistinctNodes (insert q vs m)
unfolding insert
insert-DistinctNodes q vs [] dv d = (dv, tt)
insert-DistinctNodes q vs ((k, v) ∷ m) dv d = ground (arith, insert-DistinctNodes q vs m dv d.1)

-- Registration keeps the identifiers of every queue distinct.
pub register_in-DistinctNodes :
    (now : Time) (n : Node) (m : NodeMap) → DistinctNodes m → DistinctNodes (register_in now n m)
unfolding register_in
register_in-DistinctNodes now n m d =
    insert-DistinctNodes n.queue _ m
      (insert-DistinctKeys n.id _ (queue_nodes n.queue m) (DistinctNodes-queue_nodes n.queue m d)) d

check_queue-DistinctKeys :
    (self : String) (now : Time) (vs : Dict NodeInfo)
    → DistinctKeys vs
    → DistinctKeys (check_queue self now vs)
unfolding check_queue
check_queue-DistinctKeys self now [] d = tt
check_queue-DistinctKeys self now ((k, v) ∷ vs) d =
    ground (
      arith,
      check_queue-DistinctKeys self now vs d.1,
      lookup-check_queue_missing self now k vs d.0,
    )

-- So does a check.
pub check_map-DistinctNodes :
    (self : String) (now : Time) (m : NodeMap)
    → DistinctNodes m
    → DistinctNodes (check_map self now m)
unfolding check_map
check_map-DistinctNodes self now [] d = tt
check_map-DistinctNodes self now ((q, v) ∷ m) d =
    (check_queue-DistinctKeys self now v d.0, check_map-DistinctNodes self now m d.1)
