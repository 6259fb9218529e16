-- ===== src/Routing/Ping.antt =====
-- packages/ddc/src/routing/PingStrategy.ts: nodes are pinged once, and the nodes of an operation
-- are sorted by groups of latency. Latencies are in milliseconds, and not negative.
pub mod Events
pub mod Order
pub mod Waiting
use cere_ddc_sdk_js.Common.{
  ℕ, suc, zero, ◌+◌, ◌-◌, ◌/◌, Bool, true, false, not, Option, none, some, List, [], ◌∷◌, ◌++◌, map,
  String, compare, Ordering, length, take, keep, lookup, has, insert, string_eq,
}
use cere_ddc_sdk_js.Common.Sort.{sort_by}
use cere_ddc_sdk_js.Routing.{RouterNode, Operation}
use cere_ddc_sdk_js.Routing.NodeType
use cere_ddc_sdk_js.Routing.Shuffle.{shuffle}

abbrev pub ping_threshold : ℕ
ping_threshold = 10

abbrev pub ping_threshold_inc : ℕ
ping_threshold_inc = 2

abbrev pub ping_latency_group : ℕ
ping_latency_group = 100

-- The state of `isDone`.
pub data DeferredState : Type 0 where
  pending resolved rejected : DeferredState

pub record PingRecord : Type 0 where
  pub node : RouterNode
  pub is_done : DeferredState
  pub latency : Option ℕ

abbrev pub NodesMap : Type 0
NodesMap = List (String × PingRecord)

abbrev pub is_not_rejected : DeferredState → Bool
is_not_rejected rejected = false
is_not_rejected _ = true

-- `getPingedNodes()`, as `marshalNodes` calls it: without a state.
unfoldable pub get_pinged_nodes : NodesMap → List RouterNode
get_pinged_nodes nodes_map =
    map (λ entry. entry.1.node) (keep (λ entry. is_not_rejected entry.1.is_done) nodes_map)

-- What `enqueuePing` returns: the record that is there, or the promise of a new ping.
pub data Enqueued : Type 0 where
  existing : PingRecord → Enqueued
  promise : String → Enqueued

unfoldable pub enqueue_ping : RouterNode → NodesMap → NodesMap × Enqueued
enqueue_ping node nodes_map = elim (lookup node.http_url nodes_map) [
  | some record' ↦ (nodes_map, existing record')
  | none ↦ (
    insert node.http_url (record { node = node; is_done = pending; latency = none }) nodes_map,
    promise node.http_url,
  )
]

unfoldable pub enqueue_pings : List RouterNode → NodesMap → NodesMap × List Enqueued
unfolding enqueue_ping
enqueue_pings [] nodes_map = (nodes_map, [])
enqueue_pings (node ∷ nodes) nodes_map =
    let (nodes_map', first) = enqueue_ping node nodes_map in
    let (nodes_map'', rest) = enqueue_pings nodes nodes_map' in (nodes_map'', first ∷ rest)

-- What `marshalNodes` has done when it comes to `await Promise.allSettled(syncPings)`.
pub record Begun : Type 0 where
  pub operation_nodes : List RouterNode
  pub sync_pings : List Enqueued
  pub to_ping_async : List RouterNode
  pub nodes_map : NodesMap

abbrev pub not_pinged : NodesMap → List RouterNode → List RouterNode
not_pinged nodes_map = keep (λ node. not (has node.http_url nodes_map))

-- `draws` are the random numbers of the shuffle. `Math.max(0, a - b)` is `a - b` on ℕ.
unfoldable pub marshal_begin : Bool → Operation → List ℕ → List RouterNode → NodesMap → Begun
marshal_begin ssl_required operation draws all_nodes nodes_map =
    let all_nodes_shuffled = shuffle draws all_nodes in
    let pinged_nodes = NodeType.marshal_nodes ssl_required operation (get_pinged_nodes nodes_map) in
    let operation_nodes = NodeType.marshal_nodes ssl_required operation all_nodes_shuffled in
    let not_pinged_nodes = not_pinged nodes_map operation_nodes in
    let to_ping_sync = take (ping_threshold - length pinged_nodes) not_pinged_nodes in
    let enqueued = enqueue_pings (pinged_nodes ++ to_ping_sync) nodes_map in
    record {
      operation_nodes = operation_nodes;
      sync_pings = enqueued.1;
      to_ping_async = take ping_threshold_inc not_pinged_nodes;
      nodes_map = enqueued.0;
    }

-- A group of latencies, or `Infinity`.
pub data Level : Type 0 where
  finite : ℕ → Level
  infinity : Level

-- `latency ? Math.ceil(latency / PING_LATENCY_GROUP) : Infinity`: a latency of 0 counts as none.
unfoldable pub level_of : Option ℕ → Level
level_of none = infinity
level_of (some zero) = infinity
level_of (some (suc n)) = finite ((suc n + (ping_latency_group - 1)) / ping_latency_group)

-- The sign of `levelA - levelB`; `Infinity - Infinity` is NaN, which a sort takes for 0.
unfoldable pub compare_level : Level → Level → Ordering
compare_level (finite a) (finite b) = compare a b
compare_level (finite a) infinity = Ordering.lt
compare_level infinity (finite b) = Ordering.gt
compare_level infinity infinity = Ordering.eq

-- `this.nodesMap.get(a.httpUrl)?.latency`
unfoldable pub latency_of : NodesMap → RouterNode → Option ℕ
latency_of nodes_map a = elim (lookup a.http_url nodes_map) [
  | none ↦ none
  | some record' ↦ record'.latency
]

abbrev pub by_level : NodesMap → RouterNode → RouterNode → Ordering
by_level nodes_map a b =
    compare_level (level_of (latency_of nodes_map a)) (level_of (latency_of nodes_map b))

-- The rest of `marshalNodes`, on the map as it stands after the wait.
unfoldable pub marshal_end : NodesMap → List RouterNode → List RouterNode
marshal_end nodes_map operation_nodes = sort_by (by_level nodes_map) operation_nodes
