-- ===== src/Routing/Ping/Waiting.antt =====
-- How many pings a call of `marshalNodes` of packages/ddc/src/routing/PingStrategy.ts starts, and
-- what it waits for.
use mathlib.Core.List.Perm
use cere_ddc_sdk_js.Common.{
  ℕ, zero, suc, ◌-◌, ◌≡◌, refl, Bool, true, false, List, [], ◌∷◌, ◌++◌, map, String, arith, inl,
  inr, string_eq, Option-cases, All, All-keep, All-append, lookup, has, length, take,
}
use cere_ddc_sdk_js.Common.Sort.{All-sort_by, All-perm, All-imp}
use cere_ddc_sdk_js.Routing.{RouterNode, Operation}
use cere_ddc_sdk_js.Routing.BaseStrategy
use cere_ddc_sdk_js.Routing.NodeType
use cere_ddc_sdk_js.Routing.NodeType.{by_priority}
use cere_ddc_sdk_js.Routing.Shuffle.{shuffle, shuffle-perm}
use cere_ddc_sdk_js.Routing.Ping.{
  PingRecord, NodesMap, get_pinged_nodes, Enqueued, existing, promise, enqueue_ping, enqueue_pings,
  Begun, marshal_begin, not_pinged, ping_threshold,
}
use cere_ddc_sdk_js.Routing.Ping.Events.Invariant.{IsSound, IsWellFormed}

-- The node has an entry, whatever the state of its ping.
abbrev pub IsKnown : NodesMap → RouterNode → Type 0
IsKnown m node = has node.http_url m ≡ true

abbrev pub IsExisting : Enqueued → Type 0
IsExisting (existing _) = Unit
IsExisting (promise _) = ⊥

IsKnown-prop : (m : NodesMap) (node : RouterNode) → IsProp (IsKnown m node)
IsKnown-prop m node = hlevel

has-cons :
    (k : String) (e : String × PingRecord) (m : NodesMap) → has k m ≡ true → has k (e ∷ m) ≡ true
unfolding lookup
has-cons k (j, r) m h = ground arith

has-head : (e : String × PingRecord) (m : NodesMap) → IsSound e → IsKnown (e ∷ m) e.1.node
unfolding lookup
has-head (j, r) m s = ground (arith, (string_eq.beq_iff j r.node.http_url).1 s.keyed)

All-IsKnown : (m : NodesMap) → IsWellFormed m → All (λ e. IsKnown m e.1.node) m
All-IsKnown [] h = tt
All-IsKnown (e ∷ m) h = (
  has-head e m h.0,
  All-imp (λ f. IsKnown m f.1.node) (λ f. IsKnown m f.1.node) _ m
      (λ f k _. has-cons f.1.node.http_url e m k) (All-IsKnown m h.1) (All-IsKnown m h.1),
)

All-map-node :
    (P : RouterNode → Type 0) (es : NodesMap)
    → All (λ e. P e.1.node) es
    → All P (map (λ e. e.1.node) es)
All-map-node P [] h = tt
All-map-node P (e ∷ es) h = (h.0, All-map-node P es h.1)

All-marshal_nodes :
    (P : RouterNode → Type 0) (ssl_required : Bool) (operation : Operation)
    (nodes : List RouterNode)
    → All P nodes
    → All P (NodeType.marshal_nodes ssl_required operation nodes)
unfolding NodeType.marshal_nodes BaseStrategy.marshal_nodes
All-marshal_nodes P true operation nodes h =
    All-sort_by (by_priority operation) P _ (All-keep _ P _ (All-keep _ P nodes h))
All-marshal_nodes P false operation nodes h =
    All-sort_by (by_priority operation) P _ (All-keep _ P nodes h)

get_pinged_nodes-IsKnown : (m : NodesMap) → IsWellFormed m → All (IsKnown m) (get_pinged_nodes m)
unfolding get_pinged_nodes
get_pinged_nodes-IsKnown m h =
    All-map-node (IsKnown m) _ (All-keep _ (λ e. IsKnown m e.1.node) m (All-IsKnown m h))

-- A node that has an entry is not pinged again, and there is nothing to wait for.
enqueue_pings-known :
    (nodes : List RouterNode) (m : NodesMap)
    → All (IsKnown m) nodes
    → ((enqueue_pings nodes m).0 ≡ m) × All IsExisting (enqueue_pings nodes m).1
unfolding enqueue_pings
enqueue_pings-known [] m h = (refl, tt)
enqueue_pings-known (node ∷ nodes) m h = elim (Option-cases (lookup node.http_url m)) [
  | inl e ↦ absurd (ground (arith, h.0))
  | inr (r, e) ↦
      let (same, ready) = enqueue_pings-known nodes m h.1 in
      rw (e, enqueue_ping) (same, (tt, ready))
]

keep-none :
    (m : NodesMap) (nodes : List RouterNode) → All (IsKnown m) nodes → not_pinged m nodes ≡ []
keep-none m [] h = refl
keep-none m (node ∷ nodes) h = rw h.0 (keep-none m nodes h.1)

take-nil {ℓ} : {A : Type ℓ} (n : ℕ) → take {A = A} n [] ≡ []
take-nil zero = refl
take-nil (suc n) = refl

take-IsKnown :
    (m : NodesMap) (nodes : List RouterNode) (n : ℕ)
    → All (IsKnown m) nodes
    → All (IsKnown m) (take n (not_pinged m nodes))
take-IsKnown m nodes n h = rw (keep-none m nodes h) (rw (take-nil {A = RouterNode} n) tt)

module _ (ssl_required : Bool) (operation : Operation) (draws : List ℕ)
    (all_nodes : List RouterNode) (m : NodesMap) where
  abbrev begun : Begun
  begun = marshal_begin ssl_required operation draws all_nodes m

  abbrev pinged : List RouterNode
  pinged = NodeType.marshal_nodes ssl_required operation (get_pinged_nodes m)

  -- On a well-formed map in which every node has an entry, a call starts no ping and waits for
  -- none, also where all pings are still pending.
  pub marshal_begin_no_wait :
      IsWellFormed m
      → All (IsKnown m) all_nodes
      → All IsExisting begun.sync_pings × (begun.nodes_map ≡ m)
  unfolding marshal_begin
  marshal_begin_no_wait h k =
      let nodes = NodeType.marshal_nodes ssl_required operation (shuffle draws all_nodes) in
      let shuffled =
        All-perm (IsKnown m) (IsKnown-prop m) (Perm.symm (shuffle-perm draws all_nodes)) k in
      let known = All-marshal_nodes (IsKnown m) ssl_required operation _ shuffled in
      let (same, ready) =
        enqueue_pings-known (pinged ++ take (ping_threshold - length pinged) (not_pinged m nodes)) m
          (All-append (IsKnown m) pinged _
            (All-marshal_nodes (IsKnown m) ssl_required operation _ (get_pinged_nodes-IsKnown m h))
            (take-IsKnown m nodes _ known)) in
      (ready, same)
