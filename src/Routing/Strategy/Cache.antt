-- ===== src/Routing/Strategy/Cache.antt =====
-- The caches of packages/ddc/src/routing/BlockchainStrategy.ts against a strategy without caches.
use cere_ddc_sdk_js.Common.{
  subst, ℕ, ◌≡◌, ◌≢◌, refl, sym, ap, ◌∙◌, none, some, List, map, String, Result, ok, err, keep,
  lookup, insert, nat_eq, string_eq, inl, inr, ◌⊎◌, ◌≢◌, Option-cases, lookup-insert_self,
  lookup-insert_cases,
}
use cere_ddc_sdk_js.Blockchain.{Bucket, Chain}
use cere_ddc_sdk_js.Routing.{RouterNode}
use cere_ddc_sdk_js.Routing.Strategy.{
  RoutingError, no_bucket, Caches, map_node_props, is_in_cluster, get_cluster_nodes, get_bucket,
  ensure_nodes, nodes_of_bucket, get_nodes,
}

-- The nodes of a bucket as the chain has them now.
abbrev pub current_cluster_nodes : Chain → String → List RouterNode
current_cluster_nodes chain cluster_id =
    map map_node_props (keep (is_in_cluster cluster_id) chain.list_storage_nodes)

abbrev pub current_bucket : Chain → ℕ → Result RoutingError Bucket
current_bucket chain bucket_id = elim (chain.get_bucket bucket_id) [
  | none ↦ err (no_bucket bucket_id)
  | some bucket ↦ ok bucket
]

abbrev pub nodes_in : Chain → Result RoutingError Bucket → Result RoutingError (List RouterNode)
nodes_in chain (err e) = err e
nodes_in chain (ok bucket) =
    ensure_nodes bucket.cluster_id (current_cluster_nodes chain bucket.cluster_id)

-- Everything that is cached is what the chain says.
pub record IsCurrent (chain : Chain) (caches : Caches) : Type 0 where
  pub buckets :
      (id : ℕ) (bucket : Bucket)
      → lookup id caches.bucket_cache ≡ some bucket
      → chain.get_bucket id ≡ some bucket
  pub clusters :
      (id : String) (nodes : List RouterNode)
      → lookup id caches.cluster_nodes ≡ some nodes
      → nodes ≡ current_cluster_nodes chain id

module _ (chain : Chain) (caches : Caches) (current : IsCurrent chain caches) where
  insert_bucket-IsCurrent :
      (id : ℕ) (bucket : Bucket)
      → chain.get_bucket id ≡ some bucket
      → IsCurrent chain (record caches { bucket_cache = insert id bucket caches.bucket_cache })
  insert_bucket-IsCurrent id bucket f = record {
    buckets = λ j b g. elim (lookup-insert_cases id j bucket b caches.bucket_cache g) [
      | inl (same, value) ↦ rw (← same, ← value) f
      | inr before ↦ current.buckets j b before
    ];
    clusters = current.clusters;
  }

  insert_cluster-IsCurrent :
      (id : String)
      → IsCurrent chain (record caches {
        cluster_nodes = insert id (current_cluster_nodes chain id) caches.cluster_nodes;
      })
  insert_cluster-IsCurrent id = record {
    buckets = current.buckets;
    clusters = λ j ns g.
        elim (lookup-insert_cases id j (current_cluster_nodes chain id) ns caches.cluster_nodes g) [
          | inl (same, value) ↦ sym value ∙ ap (current_cluster_nodes chain) same
          | inr before ↦ current.clusters j ns before
        ];
  }

  get_bucket-IsCurrent :
      (id : ℕ)
      → ((get_bucket chain id caches).1 ≡ current_bucket chain id)
        × IsCurrent chain (get_bucket chain id caches).0
  unfolding get_bucket
  get_bucket-IsCurrent id = elim (Option-cases (lookup id caches.bucket_cache)) [
    | inr (bucket, e) ↦
        rw (e, get_bucket) (rw (current.buckets id bucket e, current_bucket) refl, current)
    | inl e ↦ elim (Option-cases (chain.get_bucket id)) [
      | inl f ↦ rw (e, f, get_bucket, current_bucket) (refl, current)
      | inr (bucket, f) ↦
          rw (e, f, get_bucket, current_bucket) (refl, insert_bucket-IsCurrent id bucket f)
    ]
  ]

  get_cluster_nodes-IsCurrent :
      (id : String)
      → ((get_cluster_nodes chain id caches).1 ≡ current_cluster_nodes chain id)
        × IsCurrent chain (get_cluster_nodes chain id caches).0
  unfolding get_cluster_nodes
  get_cluster_nodes-IsCurrent id = elim (Option-cases (lookup id caches.cluster_nodes)) [
    | inr (nodes, e) ↦ rw (e, get_cluster_nodes) (current.clusters id nodes e, current)
    | inl e ↦ rw (e, get_cluster_nodes) (refl, insert_cluster-IsCurrent id)
  ]

nodes_of_bucket-IsCurrent :
    (chain : Chain) (caches : Caches) (r : Result RoutingError Bucket)
    → IsCurrent chain caches
    → ((nodes_of_bucket chain (caches, r)).1 ≡ nodes_in chain r)
      × IsCurrent chain (nodes_of_bucket chain (caches, r)).0
nodes_of_bucket-IsCurrent chain caches (err e) current = (refl, current)
nodes_of_bucket-IsCurrent chain caches (ok bucket) current =
    let (same, kept) = get_cluster_nodes-IsCurrent chain caches current bucket.cluster_id in
    (ap (ensure_nodes bucket.cluster_id) same, kept)

-- While the chain stands still, caches that agree with it go on agreeing with it, and `getNodes`
-- answers as if it asked the chain each time: the nodes of the bucket's cluster, or the error for a
-- missing bucket or an empty cluster.
pub get_nodes-IsCurrent :
    (chain : Chain) (caches : Caches) (bucket_id : ℕ)
    → IsCurrent chain caches
    → ((get_nodes chain chain bucket_id caches).1 ≡ nodes_in chain (current_bucket chain bucket_id))
      × IsCurrent chain (get_nodes chain chain bucket_id caches).0
unfolding get_nodes
get_nodes-IsCurrent chain caches bucket_id current =
    let (bucket, kept) = get_bucket-IsCurrent chain caches current bucket_id in
    let (nodes, kept') =
      nodes_of_bucket-IsCurrent chain (get_bucket chain bucket_id caches).0
        (get_bucket chain bucket_id caches).1 kept in
    (nodes ∙ ap (nodes_in chain) bucket, kept')

get_bucket_hit :
    (chain : Chain) (id : ℕ) (bucket : Bucket) (caches : Caches)
    → lookup id caches.bucket_cache ≡ some bucket
    → get_bucket chain id caches ≡ (caches, ok bucket)
unfolding get_bucket
get_bucket_hit chain id bucket caches h = rw (h, get_bucket)

get_cluster_nodes_hit :
    (chain : Chain) (id : String) (nodes : List RouterNode) (caches : Caches)
    → lookup id caches.cluster_nodes ≡ some nodes
    → get_cluster_nodes chain id caches ≡ (caches, nodes)
unfolding get_cluster_nodes
get_cluster_nodes_hit chain id nodes caches h = rw (h, get_cluster_nodes)

-- `getBucket` leaves the bucket that it returns in the cache, and fails for one reason.
get_bucket_cached :
    (chain : Chain) (caches : Caches) (id : ℕ)
    → ((bucket : Bucket) × ((get_bucket chain id caches).1 ≡ ok bucket)
        × (lookup id (get_bucket chain id caches).0.bucket_cache ≡ some bucket))
      ⊎ ((get_bucket chain id caches).1 ≡ err (no_bucket id))
unfolding get_bucket
get_bucket_cached chain caches id = elim (Option-cases (lookup id caches.bucket_cache)) [
  | inr (bucket, e) ↦ inl (bucket, rw (e, get_bucket), rw (e, get_bucket) e)
  | inl e ↦ elim (Option-cases (chain.get_bucket id)) [
    | inl f ↦ inr (rw (e, f, get_bucket))
    | inr (bucket, f) ↦ inl (
      bucket,
      rw (e, f, get_bucket),
      rw (e, f, get_bucket) (lookup-insert_self id bucket caches.bucket_cache),
    )
  ]
]

get_cluster_nodes_cached :
    (chain : Chain) (caches : Caches) (id : String)
    → ((get_cluster_nodes chain id caches).0.bucket_cache ≡ caches.bucket_cache)
      × (lookup id (get_cluster_nodes chain id caches).0.cluster_nodes
          ≡ some (get_cluster_nodes chain id caches).1)
unfolding get_cluster_nodes
get_cluster_nodes_cached chain caches id = elim (Option-cases (lookup id caches.cluster_nodes)) [
  | inr (nodes, e) ↦ rw (e, get_cluster_nodes) (refl, e)
  | inl e ↦ rw (e, get_cluster_nodes) (refl, lookup-insert_self id _ caches.cluster_nodes)
]

nodes_of_bucket_again :
    (later other later' : Chain) (caches : Caches) (id : ℕ) (bucket : Bucket)
    → lookup id caches.bucket_cache ≡ some bucket
    → get_nodes other later' id (nodes_of_bucket later (caches, ok bucket)).0
      ≡ nodes_of_bucket later (caches, ok bucket)
unfolding get_nodes
nodes_of_bucket_again later other later' caches id bucket h =
    let (same, found) = get_cluster_nodes_cached later caches bucket.cluster_id in
    let caches' = (get_cluster_nodes later bucket.cluster_id caches).0 in
    let hit = get_bucket_hit other id bucket caches' (ap (lookup id) same ∙ h) in
    let hit' = get_cluster_nodes_hit later' bucket.cluster_id _ caches' found in
    rw (hit) (rw hit' refl)

-- Unless the bucket is missing, the first answer stays: later calls for the bucket return the same
-- nodes or the same error whatever the chain says by then, also that the cluster has no nodes.
pub get_nodes_again :
    (chain later other later' : Chain) (caches : Caches) (bucket_id : ℕ)
    → (get_nodes chain later bucket_id caches).1 ≢ err (no_bucket bucket_id)
    → get_nodes other later' bucket_id (get_nodes chain later bucket_id caches).0
      ≡ get_nodes chain later bucket_id caches
unfolding get_nodes
get_nodes_again chain later other later' caches bucket_id h =
    elim (get_bucket_cached chain caches bucket_id) [
      | inr e ↦
          absurd
            (h (ap (λ r. (nodes_of_bucket later ((get_bucket chain bucket_id caches).0, r)).1) e))
      | inl (bucket, e, found) ↦
          subst
            (λ r.
              get_nodes other later' bucket_id
                (nodes_of_bucket later ((get_bucket chain bucket_id caches).0, r)).0
              ≡ nodes_of_bucket later ((get_bucket chain bucket_id caches).0, r))
            (sym e)
            (nodes_of_bucket_again later other later' (get_bucket chain bucket_id caches).0
              bucket_id bucket found)
    ]
