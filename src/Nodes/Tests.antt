-- ===== src/Nodes/Tests.antt =====
-- Runs of packages/ddc/src/nodes/BalancedNode.ts over a router of two nodes.
use cere_ddc_sdk_js.Streams.{bytes}
use cere_ddc_sdk_js.Piece.{new_piece}
use cere_ddc_sdk_js.StorageNode.{OperationOptions, AnyPiece, single}
use cere_ddc_sdk_js.Nodes.Operations.{NodeOperations}
use cere_ddc_sdk_js.Common.{
  lookup, insert, ℕ, ◌≡◌, refl, true, none, some, [], ◌∷◌, String, Result, ok, err, string_eq,
  ◌===◌, if◌then◌else◌,
}
use cere_ddc_sdk_js.Common.Sort.{IsOrdered, sort_by}
use cere_ddc_sdk_js.Routing.BaseStrategy
use cere_ddc_sdk_js.Routing.NodeType
use cere_ddc_sdk_js.Routing.NodeType.{select_node, priority_map, priority_of}
use cere_ddc_sdk_js.Routing.Shuffle.{shuffle}
use cere_ddc_sdk_js.Routing.Ping.{
  compare_level, level_of, latency_of, enqueue_ping, enqueue_pings, get_pinged_nodes, marshal_begin,
  marshal_end,
}
use cere_ddc_sdk_js.Routing.Ping.Events
use cere_ddc_sdk_js.Routing.{RouterNode, read_piece, full, storage}
use cere_ddc_sdk_js.Blockchain.{Chain}
use cere_ddc_sdk_js.Routing.Strategy.{static, strategy_nodes}
use cere_ddc_sdk_js.Routing.Router.{get_node_id, get_node}
use cere_ddc_sdk_js.Nodes.{Thrown, rpc_error, is_retryable, from_rpc_error, status_name}
use cere_ddc_sdk_js.Nodes.Retry.Immediate.{library}
use cere_ddc_sdk_js.Nodes.RoutedSource.{RoutedWorld, routed_source, next_node}
use cere_ddc_sdk_js.Nodes.Balanced.{pop, attempt_once, with_retry}
use cere_ddc_sdk_js.Nodes.Balanced.Source.{NodeSource}
use cere_ddc_sdk_js.Nodes.Balanced.Attempts.{Differ}
use cere_ddc_sdk_js.Nodes.Balanced.Outcome.{run}
use cere_ddc_sdk_js.Nodes.Balanced.Effort.{nodes_of, final, with_retry-distinct}

abbrev node_a : RouterNode
node_a = record {
  mode = full;
  ssl = true;
  http_url = "https://a";
  grpc_url = "grpc://a:9090";
  node_id = some "a";
  priority = none;
}

abbrev node_b : RouterNode
node_b = record {
  mode = storage;
  ssl = true;
  http_url = "https://b";
  grpc_url = "grpc://b:9090";
  node_id = none;
  priority = none;
}

abbrev no_chain : Chain
no_chain = record { get_bucket = λ id. none; list_storage_nodes = [] }

abbrev world : RoutedWorld
world = record {
  router = record { strategy = static (node_a ∷ node_b ∷ []); nodes_map = [] };
  future = λ n. record {
    ssl_required = true;
    chain = no_chain;
    later_chain = no_chain;
    draws = [];
    events = [];
  };
}

abbrev unavailable_error : Thrown
unavailable_error = rpc_error (record {
  message = "no connection";
  code = "UNAVAILABLE";
  method_name = none;
  service_name = none;
})

-- Node a is not available, and the others answer.
abbrev answers : RouterNode → ℕ → RoutedWorld → RoutedWorld × Result Thrown String
answers node attempt w =
    (w, if get_node_id node === "a" then err unavailable_error else ok "the piece")

-- No node is available.
abbrev refusals : RouterNode → ℕ → RoutedWorld → RoutedWorld × Result Thrown String
refusals node attempt w = (w, err unavailable_error)

abbrev nodes : NodeSource RoutedWorld get_node_id
nodes = routed_source read_piece 1

-- Test: node a refuses, node b answers; and the router did not fail.
answered :
    ((run get_node_id nodes answers none library 5 world).1 ≡ ok "the piece")
    × ((final get_node_id nodes answers none library 5 world).last_router_error ≡ none)
unfolding with_retry attempt_once next_node get_node strategy_nodes select_node Events.marshal_nodes
    sort_by NodeType.marshal_nodes BaseStrategy.marshal_nodes shuffle priority_map priority_of
    compare_level level_of latency_of lookup insert pop from_rpc_error is_retryable status_name
    Events.run enqueue_ping enqueue_pings get_pinged_nodes marshal_begin marshal_end
answered = (refl, refl)

with_retry-distinct_example :
    IsOrdered
      (Differ get_node_id)
      (nodes_of (final get_node_id nodes answers none library 5 world).calls)
with_retry-distinct_example =
    with_retry-distinct get_node_id nodes answers none library 5 world answered.1

-- The operations of nodes of which node a is not available, and no node keeps names.
abbrev cluster : NodeOperations RoutedWorld RouterNode
cluster = record {
  on_store_piece = λ node bucket_id piece options w. answers node 1 w;
  on_read_piece = λ node bucket_id cid range options w. (w, err unavailable_error);
  on_store_dag_node = λ node bucket_id dag_node options w. (w, err unavailable_error);
  on_get_dag_node = λ node bucket_id path cid options w. (w, ok none);
  on_store_cns_record = λ node bucket_id r options w. (w, err unavailable_error);
  on_get_cns_record = λ node bucket_id name options w. (w, ok none);
  on_resolve_name = λ node bucket_id name options w. (w, err unavailable_error);
}

abbrev no_options : OperationOptions
no_options = record { access_token = none; name = none; correlation_id = none }

abbrev small_piece : AnyPiece
small_piece =
    single (new_piece (bytes (1 ∷ 2 ∷ [])) (record { multipart_offset = none; size = none }))
