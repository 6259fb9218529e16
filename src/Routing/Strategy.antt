-- ===== src/Routing/Strategy.antt =====
-- packages/ddc/src/routing: where the nodes come from. StaticStrategy.ts keeps a list,
-- BlockchainStrategy.ts asks the chain and caches buckets and the nodes of clusters.
pub mod Cache
use cere_ddc_sdk_js.Common.{
  ℕ, Bool, true, false, Option, none, some, List, [], ◌∷◌, map, String, Result, ok, err, keep,
  lookup, insert, nat_eq, string_eq, ◌===◌, decimal, ◌+str◌, if◌then◌else◌, or_else,
}
use cere_ddc_sdk_js.Blockchain.{Bucket, StorageNodeProps, ChainNode, Chain}
use cere_ddc_sdk_js.Routing.{RouterNode}

-- What is thrown on the way to a node.
pub data RoutingError : Type 0 where
  -- `Failed to get bucket ${bucketId} on blockchain`
  no_bucket : ℕ → RoutingError
  -- `No nodes found in the cluster: ${clusterId}`
  no_cluster_nodes : String → RoutingError
  -- 'No nodes available to handle the operation'
  no_nodes_available : RoutingError

-- The two caches of a `BlockchainStrategy`.
pub record Caches : Type 0 where
  pub bucket_cache : List (ℕ × Bucket)
  pub cluster_nodes : List (String × List RouterNode)

-- `domain || host`: an empty domain is none.
abbrev pub http_host : Option String → String → String
http_host none host = host
http_host (some domain) host = if domain === "" then host else domain

-- `ssl` as the branches of `mapNodeProps` read it.
abbrev pub is_ssl : Option Bool → Bool
is_ssl ssl = or_else ssl false

unfoldable pub map_node_props : ChainNode → RouterNode
map_node_props node =
    let host = http_host node.props.domain node.props.host in
    record {
      mode = node.props.mode;
      ssl = is_ssl node.props.ssl;
      http_url =
          if is_ssl node.props.ssl
          then "https://" +str host
          else "http://" +str host +str ":" +str decimal node.props.http_port;
      grpc_url = "grpc://" +str node.props.host +str ":" +str decimal node.props.grpc_port;
      node_id = none;
      priority = none;
    }

-- `node.clusterId === clusterId`
abbrev pub is_in_cluster : String → ChainNode → Bool
is_in_cluster cluster_id node = elim node.cluster_id [ none ↦ false | some id ↦ id === cluster_id ]

unfoldable pub get_cluster_nodes : Chain → String → Caches → Caches × List RouterNode
get_cluster_nodes chain cluster_id caches = elim (lookup cluster_id caches.cluster_nodes) [
  | some nodes ↦ (caches, nodes)
  | none ↦
      let nodes = map map_node_props (keep (is_in_cluster cluster_id) chain.list_storage_nodes) in
      (record caches { cluster_nodes = insert cluster_id nodes caches.cluster_nodes }, nodes)
]

unfoldable pub get_bucket : Chain → ℕ → Caches → Caches × Result RoutingError Bucket
get_bucket chain bucket_id caches = elim (lookup bucket_id caches.bucket_cache) [
  | some bucket ↦ (caches, ok bucket)
  | none ↦ elim (chain.get_bucket bucket_id) [
    | none ↦ (caches, err (no_bucket bucket_id))
    | some bucket ↦
        (record caches { bucket_cache = insert bucket_id bucket caches.bucket_cache }, ok bucket)
  ]
]

-- `if (!nodes.length) throw …`
abbrev pub ensure_nodes : String → List RouterNode → Result RoutingError (List RouterNode)
ensure_nodes cluster_id [] = err (no_cluster_nodes cluster_id)
ensure_nodes cluster_id (node ∷ nodes) = ok (node ∷ nodes)

-- `getNodes` once the bucket is there or not. `later` is the chain at the second query.
abbrev pub nodes_of_bucket :
    Chain → Caches × Result RoutingError Bucket → Caches × Result RoutingError (List RouterNode)
nodes_of_bucket later (caches, err e) = (caches, err e)
nodes_of_bucket later (caches, ok bucket) =
    let (caches', nodes) = get_cluster_nodes later bucket.cluster_id caches in
    (caches', ensure_nodes bucket.cluster_id nodes)

-- `BlockchainStrategy.getNodes`. The chain may have moved on between the two queries.
unfoldable pub get_nodes :
    Chain → Chain → ℕ → Caches → Caches × Result RoutingError (List RouterNode)
unfolding get_bucket get_cluster_nodes
get_nodes chain later bucket_id caches = nodes_of_bucket later (get_bucket chain bucket_id caches)

-- The strategy of a router, with its state.
pub data Strategy : Type 0 where
  static : List RouterNode → Strategy
  blockchain : Caches → Strategy

-- `strategy.getNodes`
unfoldable pub strategy_nodes :
    Chain → Chain → ℕ → Strategy → Strategy × Result RoutingError (List RouterNode)
strategy_nodes chain later bucket_id (static nodes) = (static nodes, ok nodes)
strategy_nodes chain later bucket_id (blockchain caches) =
    let (caches', result) = get_nodes chain later bucket_id caches in (blockchain caches', result)
