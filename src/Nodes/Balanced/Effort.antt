-- ===== src/Nodes/Balanced/Effort.antt =====
-- Which nodes an operation of packages/ddc/src/nodes/BalancedNode.ts asks, and how many.
use cere_ddc_sdk_js.Common.{
  ℕ, ◌+◌, ◌≤◌, ◌≡◌, sym, ap, ◌∙◌, subst, true, Option, none, some, List, [], ◌∷◌, map, String,
  Result, ok, err, arith, length,
}
use cere_ddc_sdk_js.Common.Sort.{IsOrdered}
use cere_ddc_sdk_js.Nodes.{Thrown, RpcError, node_error, as_rpc_error}
use cere_ddc_sdk_js.Nodes.Retry.{Attempt, thrown, RetryLibrary, Finished}
use cere_ddc_sdk_js.Nodes.Balanced.{Call, RetryState, blame, handle, ask, use_node, attempt_once}
use cere_ddc_sdk_js.Nodes.Balanced.Source.{NodeSource}
use cere_ddc_sdk_js.Nodes.Balanced.Attempts.{is_transient, IsRetried, Differ, Inv, Taken, called}
use cere_ddc_sdk_js.Nodes.Balanced.Outcome.{
  handle-calls, handle-router_error, attempt, taken, run, finished,
}

-- The latest call failed with a code to retry.
abbrev pub LatestRetried : {Node A : Type 0} → List (Call Node A) → Type 0
LatestRetried [] = ⊥
LatestRetried (c ∷ _) = IsRetried c

abbrev pub nodes_of : {Node A : Type 0} → List (Call Node A) → List Node
nodes_of = map (λ c. c.node)

module _ {W Node A : Type 0} (node_id : Node → String) (correlation_id : Option String) where
  -- What holds after attempt `n`.
  record Effort (n : ℕ) (after : RetryState W Node A) (end : Attempt A) : Type 0 where
    bounded : length after.calls ≤ n
    distinct : after.last_router_error ≡ none → IsOrdered (Differ node_id) (nodes_of after.calls)
    again :
        after.last_router_error ≡ none
        → LatestRetried after.calls
        → (length after.calls ≡ n) × ((e : Thrown) × (end ≡ thrown e))

  handle-thrown :
      (s : RetryState W Node A) (node : Node) (x : Thrown) (rpc : Option RpcError)
      → is_transient rpc ≡ true
      → (e : Thrown) × ((handle node_id correlation_id x node rpc s).1 ≡ thrown e)
  handle-thrown s node x none h = cc
  handle-thrown s node x (some rpc) h =
      (node_error (blame node_id correlation_id node rpc), rw (h, handle))

  ask-Effort :
      (n : ℕ) (s : RetryState W Node A) (node : Node) (w : W) (r : Result Thrown A)
      → Taken node_id correlation_id n s (some node)
      → Effort n
          (ask node_id correlation_id n s node (w, r)).0
          (ask node_id correlation_id n s node (w, r)).1
  ask-Effort n s node w (ok a) t = record {
    bounded = t.bounded;
    distinct = λ e. subst (IsOrdered (Differ node_id)) (sym (t.contacted e)) t.distinct;
    again = λ e h. cc;
  }
  ask-Effort n s node w (err x) t =
      let s' = called node_id correlation_id n s node w (err x) in
      let calls = handle-calls node_id correlation_id s' node x (as_rpc_error x) in
      let router = handle-router_error node_id correlation_id s' node x (as_rpc_error x) in
      record {
        bounded = rw calls t.bounded;
        distinct = λ e.
            subst (λ cs. IsOrdered (Differ node_id) (nodes_of cs)) (sym calls)
              (subst (IsOrdered (Differ node_id)) (sym (t.contacted (sym router ∙ e))) t.distinct);
        again = λ e h. (
          ap length calls ∙ t.exact (sym router ∙ e),
          handle-thrown s' node x (as_rpc_error x) (subst LatestRetried calls h),
        );
      }

module _ {W Node A : Type 0} (node_id : Node → String) (source : NodeSource W node_id)
    (body : Node → ℕ → W → W × Result Thrown A) (correlation_id : Option String) where
  use_node-Effort :
      (n : ℕ) (s : RetryState W Node A) (node : Option Node)
      → Taken node_id correlation_id n s node
      → Effort node_id correlation_id n
          (use_node node_id source.get_node body correlation_id n (s, node)).0
          (use_node node_id source.get_node body correlation_id n (s, node)).1
  use_node-Effort n s none t = record {
    bounded = omega (arith, t.bounded);
    distinct = λ e. absurd (t.contacted e);
    again = λ e h. absurd (t.contacted e);
  }
  use_node-Effort n s (some node) t =
      ask-Effort node_id correlation_id n s node _ (body node n s.world).1 t

  attempt-Effort :
      (n : ℕ) (s : RetryState W Node A)
      → Inv node_id correlation_id n s
      → Effort node_id correlation_id n
          (attempt node_id source body correlation_id n s).0
          (attempt node_id source body correlation_id n s).1
  unfolding attempt_once
  attempt-Effort n s h = use_node-Effort n _ _ (taken node_id source body correlation_id n s h)

  module _ (library : RetryLibrary (RetryState W Node A) A) (retries : ℕ) (world : W) where
    abbrev pub final : RetryState W Node A
    final = (run node_id source body correlation_id library retries world).0

    abbrev last :
        Finished
          (attempt node_id source body correlation_id)
          (Inv node_id correlation_id)
          (1 + retries)
          (run node_id source body correlation_id library retries world)
    last = finished node_id source body correlation_id library retries world

    final-Effort :
        Effort node_id correlation_id last.number final
          (attempt node_id source body correlation_id last.number last.before).1
    final-Effort =
        subst
          (λ s.
            Effort node_id correlation_id last.number s
              (attempt node_id source body correlation_id last.number last.before).1)
          last.state (attempt-Effort last.number last.before last.inv)

    -- An operation asks at most one node more than it has retries.
    pub with_retry_bound : length final.calls ≤ retries + 1
    with_retry_bound = omega (arith, final-Effort.bounded, last.within)

    -- As long as the router fails in no attempt, no node is asked twice.
    pub with_retry-distinct :
        final.last_router_error ≡ none → IsOrdered (Differ node_id) (nodes_of final.calls)
    with_retry-distinct e = final-Effort.distinct e
