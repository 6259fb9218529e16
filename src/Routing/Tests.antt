-- ===== src/Routing/Tests.antt =====
-- Runs of packages/ddc/src/routing: a small cluster, and the router over it.
use mathlib.Core.List.{Perm}
use cere_ddc_sdk_js.Common.{
  ℕ, decimal, sym, ◌∙◌, ◌≡◌, refl, true, false, none, some, List, [], ◌∷◌, String, ok, err, keep,
  All, string_eq, nat_eq, lookup,
}
use cere_ddc_sdk_js.Common.Sort.{IsOrdered, Lex, sort_by}
use cere_ddc_sdk_js.Blockchain.{Bucket, Chain}
use cere_ddc_sdk_js.Routing.{RouterNode, read_piece, store_piece, full, storage, cache}
use cere_ddc_sdk_js.Routing.BaseStrategy
use cere_ddc_sdk_js.Routing.NodeType
use cere_ddc_sdk_js.Routing.NodeType.{is_applicable}
use cere_ddc_sdk_js.Routing.NodeType.Laws.{NoLater}
use cere_ddc_sdk_js.Routing.Shuffle.{shuffle}
use cere_ddc_sdk_js.Routing.Ping.{
  pending, resolved, rejected, NodesMap, get_pinged_nodes, marshal_begin, by_level, enqueue_pings,
  level_of, latency_of, compare_level,
}
use cere_ddc_sdk_js.Routing.Ping.Events.{PingEvent, measured, succeeded, failed, marshal_nodes}
use cere_ddc_sdk_js.Routing.Ping.Events.Invariant.{IsWellFormed}
use cere_ddc_sdk_js.Routing.Ping.Order.{marshal_nodes-IsOrdered, marshal_nodes-perm}
use cere_ddc_sdk_js.Routing.Ping.Waiting.{IsExisting, marshal_begin_no_wait}
use cere_ddc_sdk_js.Routing.Strategy.{
  no_cluster_nodes, Caches, static, get_nodes, map_node_props, strategy_nodes,
}
use cere_ddc_sdk_js.Routing.Strategy.Cache.{
  IsCurrent, nodes_in, current_bucket, get_nodes-IsCurrent, get_nodes_again,
}
use cere_ddc_sdk_js.Routing.Router.{Router, Surroundings, get_node}
use cere_ddc_sdk_js.Routing.Router.Choice.{eligible, IsBest, get_node-IsBest}

abbrev node_a : RouterNode
node_a = record {
  mode = full;
  ssl = true;
  http_url = "https://a";
  grpc_url = "grpc://a:9090";
  node_id = some "a";
  priority = none;
}

abbrev node_b : RouterNode
node_b = record {
  mode = storage;
  ssl = true;
  http_url = "https://b";
  grpc_url = "grpc://b:9090";
  node_id = none;
  priority = none;
}

abbrev node_c : RouterNode
node_c = record {
  mode = cache;
  ssl = false;
  http_url = "http://c:8080";
  grpc_url = "grpc://c:9090";
  node_id = none;
  priority = none;
}

abbrev three_nodes : List RouterNode
three_nodes = node_a ∷ node_b ∷ node_c ∷ []

-- Node b is far away, node c failed, node a is answering.
abbrev some_pings : NodesMap
some_pings =
    ("https://a", record { node = node_a; is_done = pending; latency = none })
    ∷ ("https://b", record { node = node_b; is_done = resolved; latency = some 250 })
    ∷ ("http://c:8080", record { node = node_c; is_done = rejected; latency = none })
    ∷ []

some_pings-IsWellFormed : IsWellFormed some_pings
some_pings-IsWellFormed = (
  record { keyed = refl; measured = λ e. cc; failed = λ e. refl },
  (
    record { keyed = refl; measured = λ e. cc; failed = λ e. cc },
    (record { keyed = refl; measured = λ e. cc; failed = λ e. refl }, tt),
  ),
)

abbrev a_answers : List PingEvent
a_answers = measured "https://a" 120 ∷ succeeded "https://a" ∷ failed "https://b" ∷ []

-- Test: a cache serves no store operation, and a node that answered in 120 ms (group 2) goes before
-- one that took 250 ms (group 3).
marshal_nodes_store :
    (marshal_nodes false store_piece (1 ∷ []) a_answers three_nodes some_pings).0
    ≡ node_a ∷ node_b ∷ []
unfolding marshal_nodes NodeType.marshal_nodes BaseStrategy.marshal_nodes shuffle sort_by
    NodeType.priority_map NodeType.priority_of compare_level level_of latency_of lookup
    enqueue_pings get_pinged_nodes
marshal_nodes_store = refl

abbrev a_call : List RouterNode × NodesMap
a_call = marshal_nodes true read_piece (2 ∷ []) a_answers three_nodes some_pings

marshal_nodes-IsOrdered_example : IsOrdered (Lex (by_level a_call.1) (NoLater read_piece)) a_call.0
marshal_nodes-IsOrdered_example =
    marshal_nodes-IsOrdered true read_piece (2 ∷ []) a_answers three_nodes some_pings

marshal_nodes-perm_example :
    Perm a_call.0 (keep (is_applicable read_piece) (BaseStrategy.marshal_nodes true three_nodes))
marshal_nodes-perm_example =
    marshal_nodes-perm true read_piece (2 ∷ []) a_answers three_nodes some_pings

-- Node a is still pending, and the call does not wait for it.
marshal_begin_no_wait_example :
    All IsExisting (marshal_begin false read_piece [] three_nodes some_pings).sync_pings
    × ((marshal_begin false read_piece [] three_nodes some_pings).nodes_map ≡ some_pings)
unfolding lookup
marshal_begin_no_wait_example =
    marshal_begin_no_wait false read_piece [] three_nodes some_pings some_pings-IsWellFormed
      (refl, (refl, (refl, tt)))

-- A bucket of a cluster with one node, and a bucket of a cluster with none.
abbrev bucket_in : ℕ → String → Bucket
bucket_in id cluster = record {
  bucket_id = id;
  owner_id = "5Owner";
  cluster_id = cluster;
  is_public = true;
  is_removed = false;
}

abbrev small_chain : Chain
small_chain = record {
  get_bucket = λ id. lookup id ((1, bucket_in 1 "0x01") ∷ (2, bucket_in 2 "0x02") ∷ []);
  list_storage_nodes =
      record {
        pub_key = "0xaa";
        provider_id = "5Provider";
        cluster_id = some "0x01";
        props = record {
          host = "10.0.0.1";
          http_port = 8080;
          grpc_port = 9090;
          p2p_port = 9070;
          mode = full;
          domain = some "node.example";
          ssl = some true;
        };
      }
      ∷ [];
}

abbrev no_caches : Caches
no_caches = record { bucket_cache = []; cluster_nodes = [] }

-- Test: what the chain says of a node, as a router reads it.
get_nodes_small :
    (get_nodes small_chain small_chain 1 no_caches).1
    ≡ ok (
        record {
          mode = full;
          ssl = true;
          http_url = "https://node.example";
          grpc_url = "grpc://10.0.0.1:9090";
          node_id = none;
          priority = none;
        }
        ∷ [])
unfolding get_nodes lookup map_node_props decimal
get_nodes_small = refl

get_nodes-IsCurrent_example :
    ((get_nodes small_chain small_chain 2 no_caches).1
      ≡ nodes_in small_chain (current_bucket small_chain 2))
    × IsCurrent small_chain (get_nodes small_chain small_chain 2 no_caches).0
unfolding lookup
get_nodes-IsCurrent_example =
    get_nodes-IsCurrent small_chain no_caches 2
      (record { buckets = λ id bucket e. cc; clusters = λ id nodes e. cc })

abbrev empty_chain : Chain
empty_chain = record { get_bucket = λ id. none; list_storage_nodes = [] }

-- Test: a cluster without nodes.
get_nodes_empty : (get_nodes small_chain empty_chain 1 no_caches).1 ≡ err (no_cluster_nodes "0x01")
unfolding get_nodes lookup
get_nodes_empty = refl

-- The cluster had no nodes at the first call, and the chain is another one at the second.
get_nodes_again_example :
    get_nodes small_chain small_chain 1 (get_nodes small_chain empty_chain 1 no_caches).0
    ≡ get_nodes small_chain empty_chain 1 no_caches
get_nodes_again_example =
    get_nodes_again small_chain empty_chain small_chain small_chain no_caches 1
      (λ e. cc (sym get_nodes_empty ∙ e))

abbrev quiet : Surroundings
quiet = record {
  ssl_required = false;
  chain = empty_chain;
  later_chain = empty_chain;
  draws = 1 ∷ [];
  events = a_answers;
}

abbrev static_router : Router
static_router = record { strategy = static three_nodes; nodes_map = some_pings }

-- Test: node a is excluded, so node b it is, which is slower than c but c's ping has failed.
get_node_excluding : (get_node quiet read_piece 1 ("a" ∷ []) static_router).1 ≡ ok node_b
unfolding get_node strategy_nodes NodeType.select_node marshal_nodes sort_by NodeType.marshal_nodes
    BaseStrategy.marshal_nodes shuffle NodeType.priority_map NodeType.priority_of compare_level
    level_of latency_of lookup enqueue_pings get_pinged_nodes
get_node_excluding = refl

get_node-IsBest_example :
    IsBest read_piece
      (get_node quiet read_piece 1 ("a" ∷ []) static_router).0.nodes_map
      (eligible false read_piece ("a" ∷ []) three_nodes)
      node_b
unfolding strategy_nodes
get_node-IsBest_example =
    get_node-IsBest quiet read_piece 1 ("a" ∷ []) static_router three_nodes refl get_node_excluding
