-- ===== src/Routing/Ping/Events.antt =====
-- What happens to the map of packages/ddc/src/routing/PingStrategy.ts while `marshalNodes` waits:
-- `ping` measures a latency or fails, `isDone` settles, and other calls and timers enqueue pings.
pub mod Invariant
use cere_ddc_sdk_js.Common.{
  ℕ, Bool, true, false, Option, none, some, List, [], ◌∷◌, String, ◌===◌, string_eq, if◌then◌else◌,
}
use cere_ddc_sdk_js.Routing.{RouterNode, Operation}
use cere_ddc_sdk_js.Routing.Ping.{
  DeferredState, pending, resolved, rejected, PingRecord, NodesMap, enqueue_ping, Begun,
  marshal_begin, marshal_end,
}

pub data PingEvent : Type 0 where
  -- `record.latency = Date.now() - start`
  measured : String → ℕ → PingEvent
  -- `.then(() => isDone.resolve(true))`
  succeeded : String → PingEvent
  -- `.catch((err) => isDone.reject(err))`
  failed : String → PingEvent
  enqueued : RouterNode → PingEvent

-- A ping is measured once, while it is pending.
measure : ℕ → PingRecord → PingRecord
measure ms record' = elim record'.is_done [
  | pending ↦ elim record'.latency [
    | none ↦ record record' { latency = some ms }
    | some _ ↦ record'
  ]
  | _ ↦ record'
]

-- `isDone` resolves after the measurement.
resolve : PingRecord → PingRecord
resolve record' = elim record'.is_done [
  | pending ↦ elim record'.latency [
    | none ↦ record'
    | some _ ↦ record record' { is_done = resolved }
  ]
  | _ ↦ record'
]

-- A ping that was measured does not fail any more.
reject : PingRecord → PingRecord
reject record' = elim record'.is_done [
  | pending ↦ elim record'.latency [
    | none ↦ record record' { is_done = rejected }
    | some _ ↦ record'
  ]
  | _ ↦ record'
]

update : String → (PingRecord → PingRecord) → NodesMap → NodesMap
update url change [] = []
update url change ((key, record') ∷ rest) =
    if key === url then (key, change record') ∷ rest else (key, record') ∷ update url change rest

unfoldable pub apply : NodesMap → PingEvent → NodesMap
unfolding update measure resolve reject
apply nodes_map (measured url ms) = update url (measure ms) nodes_map
apply nodes_map (succeeded url) = update url resolve nodes_map
apply nodes_map (failed url) = update url reject nodes_map
apply nodes_map (enqueued node) = (enqueue_ping node nodes_map).0

unfoldable pub run : NodesMap → List PingEvent → NodesMap
unfolding apply
run nodes_map [] = nodes_map
run nodes_map (event ∷ events) = run (apply nodes_map event) events

-- `marshalNodes` as a whole: what it returns, and the map that it leaves, when `events` happen
-- during the wait.
unfoldable pub marshal_nodes :
    Bool
    → Operation
    → List ℕ
    → List PingEvent
    → List RouterNode
    → NodesMap
    → List RouterNode × NodesMap
unfolding run marshal_begin marshal_end
marshal_nodes ssl_required operation draws events all_nodes nodes_map =
    let begun = marshal_begin ssl_required operation draws all_nodes nodes_map in
    let nodes_map' = run begun.nodes_map events in
    (marshal_end nodes_map' begun.operation_nodes, nodes_map')
