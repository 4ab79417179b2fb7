-- ===== src/Cluster/Reports.antt =====
-- What a main node knows after any sequence of calls and checks, and whom it then chooses.
use mathlib.Core.List.{Memᴰ}
use mathlib.Core.List.Memᴰ
use agscheduler.Base.{
  ◌+◌, ℕ, ◌≤◌, String, ◌≡◌, refl, sym, ap, ◌∙◌, subst, inl, inr, ◌⊎◌, true, false, false≢true, List,
  [], ◌∷◌, All, All-map, All-if, arith, if◌then◌else◌, ◌==◌, eq_iff, Bool-cases, contains,
}
use agscheduler.Base.Dict.{Dict, insert, lookup}
use agscheduler.Result.{ok}
use agscheduler.Time.{Time, sub_time}
use agscheduler.Cluster.{
  NodeInfo, NodeMap, Node, ClusterNode, queue_nodes, find_node, node_info, register_in,
  register_node, set_node_map, candidate, delete_after, unhealthy_after, check_queue, check_map,
  check_nodes, choice_node, exceeds,
}
use agscheduler.Cluster.Choice.{choice_node-IsOffered}
use agscheduler.Cluster.Remote.{rpc_register, rpc_ping}

-- What changes the registry of a main node: a call of `RPCRegister` or `RPCPing`, and a round of
-- `checkNode`, each at a reading of the clock.
pub data NodeEvent : Type 0 where
  registered : (now : Time) → (args : Node) → NodeEvent
  pinged : (now : Time) → (args reply : Node) → NodeEvent
  checked : (now : Time) → NodeEvent

unfoldable pub after_event : NodeEvent → ClusterNode → ClusterNode
after_event (registered now args) cn = (rpc_register now args cn).1
after_event (pinged now args reply) cn = (rpc_ping now args reply cn).1
after_event (checked now) cn = check_nodes now cn

unfoldable pub after_events : List NodeEvent → ClusterNode → ClusterNode
unfolding after_event
after_events [] cn = cn
after_events (e ∷ es) cn = after_events es (after_event e cn)

-- A call of a node of that queue and identifier, at that time.
abbrev IsCallOf : (queue id : String) → Time → NodeEvent → Type 0
IsCallOf queue id t (registered now n) = (n.queue ≡ queue) × (n.id ≡ id) × (now ≡ t)
IsCallOf queue id t (pinged now n reply) = (n.queue ≡ queue) × (n.id ≡ id) × (now ≡ t)
IsCallOf queue id t (checked now) = ⊥

-- One of the events is such a call.
abbrev pub Heard : List NodeEvent → (queue id : String) → Time → Type 0
Heard [] queue id t = ⊥
Heard (e ∷ es) queue id t = IsCallOf queue id t e ⊎ Heard es queue id t

-- A predicate of every entry of a registry, with its queue and its identifier.
abbrev Entries : (String → String → NodeInfo → Type 0) → NodeMap → Type 0
Entries P m = All (λ qs. All (λ entry. P qs.0 entry.0 entry.1) qs.1) m

insert-All {ℓ κ} :
    {V : Type ℓ} (P : String × V → Type κ) (k : String) (v : V) (m : Dict V)
    → All P m
    → P (k, v)
    → All P (insert k v m)
unfolding insert
insert-All P k v [] a h = (h, tt)
insert-All P k v ((j, u) ∷ m) a h = elim (Bool-cases (j == k)) [
  | inl e ↦ rw e (h, a.1)
  | inr e ↦ rw e (a.0, insert-All P k v m a.1 h)
]

queue_nodes-cons :
    (q k : String) (vs : Dict NodeInfo) (m : NodeMap)
    → queue_nodes q ((k, vs) ∷ m) ≡ (if k == q then vs else queue_nodes q m)
unfolding queue_nodes lookup
queue_nodes-cons q k vs m = ground arith

-- A heartbeat that is not too old.
recent_of_exceeds :
    (now t : Time) → exceeds (sub_time now t) unhealthy_after ≡ false → now ≤ t + unhealthy_after
unfolding exceeds sub_time
recent_of_exceeds now t h = ground arith

module _ (P : String → String → NodeInfo → Type 0) where
  queue_nodes-All :
      (q : String) (m : NodeMap)
      → Entries P m
      → All (λ entry. P q entry.0 entry.1) (queue_nodes q m)
  queue_nodes-All q [] a = unfold queue_nodes lookup in tt
  queue_nodes-All q ((k, vs) ∷ m) a = rw (queue_nodes-cons q k vs m) (
      All-if (λ entry. P q entry.0 entry.1) (k == q) vs (queue_nodes q m)
        (λ e. subst (λ y. All (λ entry. P y entry.0 entry.1) vs) ((eq_iff k q).0 e) a.0)
        (λ e. queue_nodes-All q m a.1))

  register_in-Entries :
      (now : Time) (n : Node) (m : NodeMap)
      → Entries P m
      → P n.queue n.id (node_info now (find_node n.queue n.id m) n)
      → Entries P (register_in now n m)
  unfolding register_in
  register_in-Entries now n m a h =
      insert-All _ n.queue _ m a
        (insert-All _ n.id _ (queue_nodes n.queue m) (queue_nodes-All n.queue m a) h)

-- What holds of every entry that a check keeps as it is, and of those that it marks.
module _ (P R : String → String → NodeInfo → Type 0) (self : String) (now : Time)
    (keeps : (q i : String) (v : NodeInfo)
      → (self ≡ i) ⊎ (now ≤ v.last_heartbeat_time + unhealthy_after)
      → P q i v
      → R q i v)
    (marks : (q i : String) (v : NodeInfo) → P q i v → R q i (record v { health = false })) where
  check_queue-All :
      (q : String) (vs : Dict NodeInfo)
      → All (λ entry. P q entry.0 entry.1) vs
      → All (λ entry. R q entry.0 entry.1) (check_queue self now vs)
  unfolding check_queue
  check_queue-All q [] a = tt
  check_queue-All q ((i, v) ∷ vs) a =
      let Q : String × NodeInfo → Type 0 = λ entry. R q entry.0 entry.1 in
      let rest = check_queue-All q vs a.1 in
      let age = sub_time now v.last_heartbeat_time in
      All-if Q (self == i) _ _ (λ own. (keeps q i v (inl ((eq_iff self i).0 own)) a.0, rest))
        (λ other.
          All-if Q (exceeds age delete_after) _ _ (λ old. rest)
            (λ young.
              All-if Q (exceeds age unhealthy_after) _ _ (λ late. (marks q i v a.0, rest))
                (λ in_time. (
                  keeps q i v (inr (recent_of_exceeds now v.last_heartbeat_time in_time)) a.0,
                  rest,
                ))))

  check_map-Entries : (m : NodeMap) → Entries P m → Entries R (check_map self now m)
  unfolding check_map
  check_map-Entries [] a = tt
  check_map-Entries ((q, vs) ∷ m) a = (check_queue-All q vs a.0, check_map-Entries m a.1)

Entries-map :
    (P R : String → String → NodeInfo → Type 0) (m : NodeMap)
    → ((q i : String) (v : NodeInfo) → P q i v → R q i v)
    → Entries P m
    → Entries R m
Entries-map P R [] f a = tt
Entries-map P R ((q, vs) ∷ m) f a =
    (All-map _ _ vs (λ entry. f q entry.0 entry.1) a.0, Entries-map P R m f a.1)

All-Memᴰ {ℓ κ} : {A : Type ℓ} (P : A → Type κ) (x : A) (xs : List A) → All P xs → Memᴰ x xs → P x
All-Memᴰ P x [] a m = absurd (Memᴰ.not-nil m)
All-Memᴰ P x (y ∷ ys) a (Memᴰ.head e) = subst P (sym e) a.0
All-Memᴰ P x (y ∷ ys) a (Memᴰ.tail m) = All-Memᴰ P x ys a.1 m

-- Every entry stands under its own queue and identifier, and its last heartbeat was heard.
abbrev IsKnown : ((queue id : String) → Time → Type 0) → (queue id : String) → NodeInfo → Type 0
IsKnown heard queue id v = (v.queue ≡ queue) × (v.id ≡ id) × heard queue id v.last_heartbeat_time

after_event-Known :
    (heard : (queue id : String) → Time → Type 0) (e : NodeEvent) (cn : ClusterNode)
    → Entries (IsKnown heard) cn.node_map
    → Entries (IsKnown (λ q i t. heard q i t ⊎ IsCallOf q i t e)) (after_event e cn).node_map
unfolding after_event rpc_register rpc_ping register_node node_info check_nodes
after_event-Known heard (registered now n) cn a =
    register_in-Entries _ now n cn.node_map
      (Entries-map _ _ cn.node_map (λ q i v k. (k.0, k.1, inl k.2)) a)
      (refl, refl, inr (refl, refl, refl))
after_event-Known heard (pinged now n reply) cn a =
    register_in-Entries _ now n cn.node_map
      (Entries-map _ _ cn.node_map (λ q i v k. (k.0, k.1, inl k.2)) a)
      (refl, refl, inr (refl, refl, refl))
after_event-Known heard (checked now) cn a =
    check_map-Entries (IsKnown heard) _ cn.id now (λ q i v recent k. (k.0, k.1, inl k.2))
      (λ q i v k. (k.0, k.1, inl k.2)) cn.node_map a

-- Every entry was heard of in the events, if those of the state before them were.
after_events-Known :
    (heard : (queue id : String) → Time → Type 0) (es : List NodeEvent) (cn : ClusterNode)
    → Entries (IsKnown heard) cn.node_map
    → Entries (IsKnown (λ q i t. heard q i t ⊎ Heard es q i t)) (after_events es cn).node_map
unfolding after_events
after_events-Known heard [] cn a =
    Entries-map (IsKnown heard) _ cn.node_map (λ q i v k. (k.0, k.1, inl k.2)) a
after_events-Known heard (e ∷ es) cn a =
    Entries-map _ _ (after_events es (after_event e cn)).node_map
      (λ q i v k. (
        k.0,
        k.1,
        elim k.2 [
          | inl (inl before) ↦ inl before
          | inl (inr call) ↦ inr (inl call)
          | inr later ↦ inr (inr later)
        ],
      ))
      (after_events-Known _ es (after_event e cn) (after_event-Known heard e cn a))

id-after_events : (es : List NodeEvent) (cn : ClusterNode) → (after_events es cn).id ≡ cn.id
unfolding after_events after_event rpc_register rpc_ping register_node check_nodes set_node_map
id-after_events [] cn = refl
id-after_events (registered now n ∷ es) cn = id-after_events es (after_event (registered now n) cn)
id-after_events (pinged now n reply ∷ es) cn =
    id-after_events es (after_event (pinged now n reply) cn)
id-after_events (checked now ∷ es) cn = id-after_events es (check_nodes now cn)

-- An entry that is healthy after a check is that of the node itself, or was heard of recently.
abbrev IsRecent : (self : String) → Time → (queue id : String) → NodeInfo → Type 0
IsRecent self now queue id v =
    v.health ≡ true → (self ≡ id) ⊎ (now ≤ v.last_heartbeat_time + unhealthy_after)

-- A check leaves no entry healthy that is neither its own nor recent.
check_nodes-Recent :
    (heard : (queue id : String) → Time → Type 0) (now : Time) (cn : ClusterNode)
    → Entries (IsKnown heard) cn.node_map
    → Entries
        (λ q i v. IsKnown heard q i v × IsRecent cn.id now q i v)
        (check_nodes now cn).node_map
unfolding check_nodes
check_nodes-Recent heard now cn a =
    check_map-Entries (IsKnown heard) _ cn.id now (λ q i v recent k. (k, λ healthy. recent))
      (λ q i v k. (k, λ healthy. absurd (false≢true healthy))) cn.node_map a

-- For a main node that starts with an empty registry, after any sequence of calls of `RPCRegister`
-- and `RPCPing` and rounds of `checkNode`, with any nodes and at any readings of the clock, and
-- one more round of `checkNode`: a node that `choiceNode` then chooses stands in a queue that was
-- asked for, or in any if none was, and it is the main node itself, or one of the calls came from
-- a node of that queue and identifier at most 400 ms before that last round.
pub chosen_node_reported :
    (draw : ℕ → ℕ) (queues : List String) (es : List NodeEvent) (now : Time) (cn : ClusterNode)
    (c : Node)
    → cn.node_map ≡ []
    → choice_node draw queues (check_nodes now (after_events es cn)) ≡ ok c
    → ((queues ≡ []) ⊎ (contains queues c.queue ≡ true))
      × ((c.id ≡ cn.id) ⊎ ((t : Time) × Heard es c.queue c.id t × (now ≤ t + unhealthy_after)))
unfolding candidate
chosen_node_reported draw queues es now cn c unknown chosen =
    let before = after_events es cn in
    let none_heard : (queue id : String) → Time → Type 0 = λ q i t. ⊥ in
    let known =
      after_events-Known none_heard es cn (subst (Entries (IsKnown none_heard)) (sym unknown) tt) in
    let o = choice_node-IsOffered draw queues (check_nodes now before) c chosen in
    let (k, recent) =
      All-Memᴰ _ (c.id, o.info) o.nodes
        (All-Memᴰ _ (o.queue, o.nodes) _ (check_nodes-Recent _ now before known) o.in_map)
        o.in_queue in
    let queue_is : o.queue ≡ c.queue = sym k.0 ∙ ap (λ (n : Node). n.queue) o.same in
    let heard : Heard es c.queue c.id o.info.last_heartbeat_time =
      subst (λ q. Heard es q c.id o.info.last_heartbeat_time) queue_is
        (elim k.2 [ inl never ↦ absurd never | inr h ↦ h ]) in
    (
      subst (λ q. (queues ≡ []) ⊎ (contains queues q ≡ true)) queue_is o.asked,
      elim (recent o.healthy) [
        | inl own ↦ inl (sym own ∙ id-after_events es cn)
        | inr soon ↦ inr (o.info.last_heartbeat_time, heard, soon)
      ],
    )
