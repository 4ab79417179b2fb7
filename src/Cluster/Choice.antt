-- ===== src/Cluster/Choice.antt =====
-- What `choiceNode` may choose.
use mathlib.Core.List.Memᴰ
use mathlib.Core.List.{Memᴰ}
use agscheduler.Base.{
  All-if, ℕ, ◌<◌, String, ◌≡◌, ◌≢◌, subst, refl, sym, ap, ◌∙◌, inl, inr, ◌⊎◌, true, false, some,
  List, [], ◌∷◌, ◌++◌, All, All-append, All-map, All-get_elem?, get_elem?_of_lt, arith, length,
  get_elem?, contains,
}
use agscheduler.Result.{ok, ok≢err}
use agscheduler.Cluster.{
  NodeInfo, NodeMap, Node, ClusterNode, candidate, healthy_nodes, skips, candidates, pick, pick_any,
  choice_node,
}
use agscheduler.Base.Dict.{Dict}

-- A node that is registered under a queue, is healthy, and stands in a queue that was asked for.
pub record IsOffered (queues : List String) (m : NodeMap) (c : Node) : Type 0 where
  pub queue : String
  pub nodes : Dict NodeInfo
  pub info : NodeInfo
  pub asked : (queues ≡ []) ⊎ (contains queues queue ≡ true)
  pub in_map : Memᴰ (queue, nodes) m
  pub in_queue : Memᴰ (c.id, info) nodes
  pub healthy : info.health ≡ true
  pub same : candidate c.id info ≡ c

-- A node that comes from a healthy entry of the queue.
abbrev FromQueue : Dict NodeInfo → Node → Type 0
FromQueue vs c = (v : NodeInfo) × Memᴰ (c.id, v) vs × (v.health ≡ true) × (candidate c.id v ≡ c)

healthy_nodes_offered : (vs : Dict NodeInfo) → All (FromQueue vs) (healthy_nodes vs)
unfolding healthy_nodes
healthy_nodes_offered [] = tt
healthy_nodes_offered ((id, v) ∷ vs) =
    let rest =
      All-map (FromQueue vs) (FromQueue ((id, v) ∷ vs)) (healthy_nodes vs)
        (λ c (u, m, h, e). (u, Memᴰ.tail m, h, e)) (healthy_nodes_offered vs) in
    All-if (FromQueue ((id, v) ∷ vs)) v.health _ _ (λ h. ((v, Memᴰ.head refl, h, refl), rest))
      (λ h. rest)

asked_of_skips :
    (queues : List String) (q : String)
    → skips queues q ≡ false
    → (queues ≡ []) ⊎ (contains queues q ≡ true)
unfolding skips
asked_of_skips [] q h = inl refl
asked_of_skips (x ∷ xs) q h = inr (ground arith)

module _ (queues : List String) (q : String) (vs : Dict NodeInfo) (m : NodeMap) where
  IsOffered-tail : (c : Node) → IsOffered queues m c → IsOffered queues ((q, vs) ∷ m) c
  IsOffered-tail c o = record {
    queue = o.queue;
    nodes = o.nodes;
    info = o.info;
    asked = o.asked;
    in_map = Memᴰ.tail o.in_map;
    in_queue = o.in_queue;
    healthy = o.healthy;
    same = o.same;
  }

  IsOffered-head :
      skips queues q ≡ false → (c : Node) → FromQueue vs c → IsOffered queues ((q, vs) ∷ m) c
  IsOffered-head h c (v, mem, ok_health, e) = record {
    queue = q;
    nodes = vs;
    info = v;
    asked = asked_of_skips queues q h;
    in_map = Memᴰ.head refl;
    in_queue = mem;
    healthy = ok_health;
    same = e;
  }

candidates-IsOffered :
    (queues : List String) (m : NodeMap) → All (IsOffered queues m) (candidates queues m)
unfolding candidates
candidates-IsOffered queues [] = tt
candidates-IsOffered queues ((q, vs) ∷ m) =
    let offered = IsOffered queues ((q, vs) ∷ m) in
    let rest =
      All-map (IsOffered queues m) offered (candidates queues m) (IsOffered-tail queues q vs m)
        (candidates-IsOffered queues m) in
    All-if offered (skips queues q) _ _ (λ h. rest)
      (λ h.
        All-append offered (healthy_nodes vs) (candidates queues m)
          (All-map (FromQueue vs) offered (healthy_nodes vs) (IsOffered-head queues q vs m h)
            (healthy_nodes_offered vs))
          rest)

pick_ok : (cs : List Node) (i : ℕ) (c : Node) → pick cs i ≡ ok c → get_elem? cs i ≡ some c
unfolding pick
pick_ok cs i c h = ground arith

pick_total : (cs : List Node) (i : ℕ) → i < length cs → (c : Node) × (pick cs i ≡ ok c)
unfolding pick
pick_total cs i h = let (c, e) = get_elem?_of_lt cs i h in (c, rw (e, pick) refl)

pick_any-All {ℓ} :
    (P : Node → Type ℓ) (draw : ℕ → ℕ) (cs : List Node) (c : Node)
    → All P cs
    → pick_any draw cs ≡ ok c
    → P c
unfolding pick_any
pick_any-All P draw [] c a h = absurd (ok≢err h)
pick_any-All P draw (x ∷ xs) c a h =
    All-get_elem? P (x ∷ xs) (draw (length (x ∷ xs))) c a
      (pick_ok (x ∷ xs) (draw (length (x ∷ xs))) c h)

-- A node that `choiceNode` chooses is registered under its identifier, is healthy, has the data of
-- its entry, and stands in a queue that was asked for, or in any if none was.
pub choice_node-IsOffered :
    (draw : ℕ → ℕ) (queues : List String) (cn : ClusterNode) (c : Node)
    → choice_node draw queues cn ≡ ok c
    → IsOffered queues cn.node_map c
unfolding choice_node
choice_node-IsOffered draw queues cn c h =
    pick_any-All (IsOffered queues cn.node_map) draw (candidates queues cn.node_map) c
      (candidates-IsOffered queues cn.node_map) h

append_ne_left {ℓ} : {A : Type ℓ} (xs ys : List A) → xs ≢ [] → xs ++ ys ≢ []
append_ne_left [] ys h e = h refl
append_ne_left (x ∷ xs) ys h e = cc

append_ne_right {ℓ} : {A : Type ℓ} (xs ys : List A) → ys ≢ [] → xs ++ ys ≢ []
append_ne_right [] ys h e = h e
append_ne_right (x ∷ xs) ys h e = cc

module _ (queues : List String) where
  skips_of_asked :
      (q : String) → (queues ≡ []) ⊎ (contains queues q ≡ true) → skips queues q ≡ false
  unfolding skips
  skips_of_asked q h = ground arith

  healthy_nodes_any :
      (id : String) (v : NodeInfo) (vs : Dict NodeInfo)
      → Memᴰ (id, v) vs
      → v.health ≡ true
      → healthy_nodes vs ≢ []
  unfolding healthy_nodes
  healthy_nodes_any id v [] m h = absurd (Memᴰ.not-nil m)
  healthy_nodes_any id v ((i, u) ∷ vs) (Memᴰ.head e) h =
      let healthy : u.health ≡ true = ap (λ (p : String × NodeInfo). p.1.health) (sym e) ∙ h in
      ground (arith, healthy)
  healthy_nodes_any id v ((i, u) ∷ vs) (Memᴰ.tail m) h =
      ground (arith, healthy_nodes_any id v vs m h)

  candidates_any :
      (m : NodeMap) (q : String) (vs : Dict NodeInfo)
      → skips queues q ≡ false
      → healthy_nodes vs ≢ []
      → Memᴰ (q, vs) m
      → candidates queues m ≢ []
  unfolding candidates
  candidates_any [] q vs s h m = absurd (Memᴰ.not-nil m)
  candidates_any ((p, us) ∷ rest) q vs s h (Memᴰ.head e) =
      let here : skips queues p ≡ false =
        ap (λ (x : String × Dict NodeInfo). skips queues x.0) (sym e) ∙ s in
      let some_healthy : healthy_nodes us ≢ [] =
        subst (λ (x : String × Dict NodeInfo). healthy_nodes x.1 ≢ []) e h in
      ground (arith, here, append_ne_left (healthy_nodes us) (candidates queues rest) some_healthy)
  candidates_any ((p, us) ∷ rest) q vs s h (Memᴰ.tail m) =
      let later = candidates_any rest q vs s h m in
      ground (arith, later, append_ne_right (healthy_nodes us) (candidates queues rest) later)

pick_any_total :
    (draw : ℕ → ℕ) (cs : List Node)
    → ((n : ℕ) → 0 < n → draw n < n)
    → cs ≢ []
    → (c : Node) × (pick_any draw cs ≡ ok c)
unfolding pick_any
pick_any_total draw [] d h = absurd (h refl)
pick_any_total draw (c ∷ cs) d h =
    pick_total (c ∷ cs) (draw (length (c ∷ cs))) (d (length (c ∷ cs)) (omega arith))

-- Where a healthy node of a queue that was asked for is registered, `choiceNode` returns a node,
-- provided that `rand.Intn` returns a number below its bound.
pub choice_node_total :
    (draw : ℕ → ℕ) (queues : List String) (cn : ClusterNode) (c : Node)
    → ((n : ℕ) → 0 < n → draw n < n)
    → IsOffered queues cn.node_map c
    → (d : Node) × (choice_node draw queues cn ≡ ok d)
unfolding choice_node
choice_node_total draw queues cn c bound o =
    pick_any_total draw (candidates queues cn.node_map) bound (
      candidates_any queues cn.node_map o.queue o.nodes (skips_of_asked queues o.queue o.asked)
        (healthy_nodes_any queues c.id o.info o.nodes o.in_queue o.healthy) o.in_map)
