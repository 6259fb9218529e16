-- ===== src/Nodes/RoutedSource.antt =====
-- The router of packages/ddc/src/routing/Router.ts as the node source of a balanced node
-- (packages/ddc/src/nodes/BalancedNode.ts).
use cere_ddc_sdk_js.Common.{
  ℕ, suc, ◌≡◌, ◌∙◌, refl, ap, ◌∙◌, true, false, List, String, Result, ok, err, Result-cases, inl,
  inr, includes, string_eq, decimal, ◌+str◌,
}
use cere_ddc_sdk_js.Routing.{RouterNode, Operation}
use cere_ddc_sdk_js.Routing.Strategy.{RoutingError, no_bucket, no_cluster_nodes, no_nodes_available}
use cere_ddc_sdk_js.Routing.Router.{Router, Surroundings, get_node_id, get_node}
use cere_ddc_sdk_js.Routing.Router.Choice.{get_node-IsAllowed}
use cere_ddc_sdk_js.Nodes.{Thrown, plain_error, is_error}
use cere_ddc_sdk_js.Nodes.Balanced.Source.{NodeSource}

-- The router, and what the world will do in its next calls.
pub record RoutedWorld : Type 0 where
  pub router : Router
  pub future : ℕ → Surroundings

-- `new Error(…)` with the message of each failure.
unfoldable pub routing_thrown : RoutingError → Thrown
routing_thrown (no_bucket id) =
    plain_error ("Failed to get bucket " +str decimal id +str " on blockchain")
routing_thrown (no_cluster_nodes id) = plain_error ("No nodes found in the cluster: " +str id)
routing_thrown no_nodes_available = plain_error "No nodes available to handle the operation"

abbrev rejected_with : Result RoutingError RouterNode → Result Thrown RouterNode
rejected_with (ok node) = ok node
rejected_with (err e) = err (routing_thrown e)

-- `this.router.getNode(operation, bucketId, …, exclude.map(…))`
unfoldable pub next_node :
    Operation → ℕ → List String → RoutedWorld → RoutedWorld × Result Thrown RouterNode
unfolding routing_thrown
next_node operation bucket_id exclude world =
    let (router', answer) = get_node (world.future 0) operation bucket_id exclude world.router in
    (record { router = router'; future = λ n. world.future (suc n) }, rejected_with answer)

module _ (operation : Operation) (bucket_id : ℕ) where
  pub next_node_fresh :
      (exclude : List String) (world : RoutedWorld) (node : RouterNode)
      → (next_node operation bucket_id exclude world).1 ≡ ok node
      → includes exclude (get_node_id node) ≡ false
  unfolding next_node
  next_node_fresh exclude world node e =
      elim (Result-cases (get_node (world.future 0) operation bucket_id exclude world.router).1) [
        | inl (n, f) ↦
            let same : n ≡ node = cc (rw (f, rejected_with) at e) in
            (get_node-IsAllowed (world.future 0) operation bucket_id exclude world.router
              (f ∙ ap ok same)).1
        | inr (failure, f) ↦ cc (rw (f, rejected_with) at e)
      ]

  routing_thrown-is_error : (e : RoutingError) → is_error (routing_thrown e) ≡ true
  unfolding routing_thrown
  routing_thrown-is_error (no_bucket id) = refl
  routing_thrown-is_error (no_cluster_nodes id) = refl
  routing_thrown-is_error no_nodes_available = refl

  pub next_node_errors :
      (exclude : List String) (world : RoutedWorld) (e : Thrown)
      → (next_node operation bucket_id exclude world).1 ≡ err e
      → is_error e ≡ true
  unfolding next_node
  next_node_errors exclude world e h =
      elim (Result-cases (get_node (world.future 0) operation bucket_id exclude world.router).1) [
        | inl (n, f) ↦ cc (rw (f, rejected_with) at h)
        | inr (failure, f) ↦
            let same : routing_thrown failure ≡ e = cc (rw (f, rejected_with) at h) in
            rw (← same) (routing_thrown-is_error failure)
      ]

  -- `Router.getNode` keeps what a balanced node relies on: it returns no excluded node, and throws
  -- nothing but `Error`s.
  abbrev pub routed_source : NodeSource RoutedWorld get_node_id
  routed_source = record {
    get_node = next_node operation bucket_id;
    fresh = next_node_fresh;
    errors = next_node_errors;
  }
