-- ===== src/Routing/Router.antt =====
-- packages/ddc/src/routing/Router.ts: `getNode`. The tokens of the chosen node are the subject of
-- the module Auth; the options that a caller passes go through unread.
pub mod Choice
pub mod Tokens
mod Tests
use cere_ddc_sdk_js.Common.{
  ℕ, Bool, not, Option, none, some, List, String, Result, ok, err, keep, includes, string_eq, ◌===◌,
  if◌then◌else◌,
}
use cere_ddc_sdk_js.Blockchain.{Chain}
use cere_ddc_sdk_js.Routing.{RouterNode, Operation}
use cere_ddc_sdk_js.Routing.NodeType.{select_node}
use cere_ddc_sdk_js.Routing.Strategy.{RoutingError, no_nodes_available, Strategy, strategy_nodes}
use cere_ddc_sdk_js.Routing.Ping.{NodesMap}
use cere_ddc_sdk_js.Routing.Ping.Events.{PingEvent, marshal_nodes}

-- `node.nodeId || node.grpcUrl`: an empty id is none.
abbrev pub id_or : Option String → String → String
id_or none grpc_url = grpc_url
id_or (some id) grpc_url = if id === "" then grpc_url else id

abbrev pub get_node_id : RouterNode → String
get_node_id node = id_or node.node_id node.grpc_url

-- What the world does during a call: the page's protocol, the answers of the chain, the random
-- numbers, and the pings that settle while the strategy waits.
pub record Surroundings : Type 0 where
  pub ssl_required : Bool
  pub chain : Chain
  pub later_chain : Chain
  pub draws : List ℕ
  pub events : List PingEvent

pub record Router : Type 0 where
  pub strategy : Strategy
  pub nodes_map : NodesMap

-- `allNodes.filter((node) => !exclude.includes(getNodeId(node)))`
abbrev pub without : List String → List RouterNode → List RouterNode
without exclude = keep (λ node. not (includes exclude (get_node_id node)))

abbrev pub chosen : Option RouterNode → Result RoutingError RouterNode
chosen none = err no_nodes_available
chosen (some node) = ok node

abbrev pub choose :
    Surroundings
    → Operation
    → List String
    → NodesMap
    → Result RoutingError (List RouterNode)
    → NodesMap × Result RoutingError RouterNode
choose world operation exclude nodes_map (err e) = (nodes_map, err e)
choose world operation exclude nodes_map (ok all_nodes) =
    let (final_nodes, nodes_map') =
      marshal_nodes world.ssl_required operation world.draws world.events
        (without exclude all_nodes) nodes_map in
    (nodes_map', chosen (select_node final_nodes))

unfoldable pub get_node :
    Surroundings → Operation → ℕ → List String → Router → Router × Result RoutingError RouterNode
get_node world operation bucket_id exclude router =
    let (strategy', found) =
      strategy_nodes world.chain world.later_chain bucket_id router.strategy in
    let (nodes_map', result) = choose world operation exclude router.nodes_map found in
    (record { strategy = strategy'; nodes_map = nodes_map' }, result)
