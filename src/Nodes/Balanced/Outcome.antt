-- ===== src/Nodes/Balanced/Outcome.antt =====
-- What an operation of packages/ddc/src/nodes/BalancedNode.ts returns, and how often it asks.
use cere_ddc_sdk_js.Common.{
  ℕ, suc, ◌+◌, ◌≡◌, refl, ap, subst, Option, none, some, List, [], ◌∷◌, map, String, Result, ok,
  err, arith, All, string_eq, inl, inr, Bool-cases,
}
use cere_ddc_sdk_js.Nodes.{Thrown, RpcError, is_retryable}
use cere_ddc_sdk_js.Nodes.Retry.{Attempt, thrown, RetryLibrary, Finished, run-Finished}
use cere_ddc_sdk_js.Nodes.Balanced.{
  Call, RetryState, take_node, handle, use_node, attempt_once, start, with_retry,
}
use cere_ddc_sdk_js.Nodes.Balanced.Source.{NodeSource}
use cere_ddc_sdk_js.Nodes.Balanced.Attempts.{
  IsRetried, call_report, Inv, Taken, take_node-Taken, ask-Inv,
}

-- Every earlier call was to be tried again, and the result is what the latest call reports. With
-- no call at all there is no value.
abbrev pub Explains :
    {Node A : Type 0}
    → (Node → String)
    → Option String
    → List (Call Node A)
    → Result Thrown A
    → Type 0
Explains node_id correlation_id [] (ok a) = ⊥
Explains node_id correlation_id [] (err e) = Unit
Explains node_id correlation_id (c ∷ earlier) r =
    All IsRetried earlier × (call_report node_id correlation_id c ≡ r)

module _ {W Node A : Type 0} (node_id : Node → String) (correlation_id : Option String) where
  pub handle-calls :
      (s : RetryState W Node A) (node : Node) (x : Thrown) (rpc : Option RpcError)
      → (handle node_id correlation_id x node rpc s).0.calls ≡ s.calls
  handle-calls s node x none = refl
  handle-calls s node x (some rpc) = elim (Bool-cases (is_retryable rpc.code)) [
    | inl again ↦ rw (again, handle)
    | inr stop ↦ rw (stop, handle)
  ]

  pub handle-router_error :
      (s : RetryState W Node A) (node : Node) (x : Thrown) (rpc : Option RpcError)
      → (handle node_id correlation_id x node rpc s).0.last_router_error ≡ s.last_router_error
  handle-router_error s node x none = refl
  handle-router_error s node x (some rpc) = elim (Bool-cases (is_retryable rpc.code)) [
    | inl again ↦ rw (again, handle)
    | inr stop ↦ rw (stop, handle)
  ]

module _ {W Node A : Type 0} (node_id : Node → String) (source : NodeSource W node_id)
    (body : Node → ℕ → W → W × Result Thrown A) (correlation_id : Option String) where
  abbrev pub attempt : ℕ → RetryState W Node A → RetryState W Node A × Attempt A
  attempt = attempt_once node_id source.get_node body correlation_id

  use_node-Inv :
      (n : ℕ) (s : RetryState W Node A) (node : Option Node) {s' : RetryState W Node A} {e : Thrown}
      → Taken node_id correlation_id n s node
      → use_node node_id source.get_node body correlation_id n (s, node) ≡ (s', thrown e)
      → Inv node_id correlation_id (suc n) s'
  use_node-Inv n s none t eq =
      subst (Inv node_id correlation_id (suc n)) (ap (λ p. p.0) eq) (record {
        bounded = omega (arith, t.bounded);
        exact = λ f. absurd (t.contacted f);
        retried = t.retried;
        latest = t.latest;
        contacted = λ f. absurd (t.contacted f);
        distinct = t.distinct;
      })
  use_node-Inv n s (some node) t eq =
      ask-Inv node_id correlation_id n s node (body node n s.world).0 (body node n s.world).1 t eq

  pub taken :
      (n : ℕ) (s : RetryState W Node A)
      → Inv node_id correlation_id n s
      → Taken node_id correlation_id n
          (take_node s (source.get_node (map node_id s.exclude) s.world)).0
          (take_node s (source.get_node (map node_id s.exclude) s.world)).1
  taken n s h =
      take_node-Taken node_id correlation_id n s _ _ h
        (source.fresh (map node_id s.exclude) s.world)
        (source.errors (map node_id s.exclude) s.world)

  attempt-Inv :
      (n : ℕ) (s s' : RetryState W Node A) (e : Thrown)
      → Inv node_id correlation_id n s
      → attempt n s ≡ (s', thrown e)
      → Inv node_id correlation_id (suc n) s'
  unfolding attempt_once
  attempt-Inv n s s' e h eq = use_node-Inv n _ _ (taken n s h) eq

  start-Inv : (world : W) → Inv {A = A} node_id correlation_id 1 (start world)
  start-Inv world = record {
    bounded = omega arith;
    exact = λ e. refl;
    retried = tt;
    latest = refl;
    contacted = λ e. refl;
    distinct = tt;
  }

  module _ (library : RetryLibrary (RetryState W Node A) A) (retries : ℕ) (world : W) where
    abbrev pub run : RetryState W Node A × Result Thrown A
    run = with_retry node_id source.get_node body correlation_id library retries world

    pub finished : Finished attempt (Inv node_id correlation_id) (1 + retries) run
    unfolding with_retry
    finished =
        run-Finished attempt (Inv node_id correlation_id) library attempt-Inv retries 1
          (start world) (start-Inv world)
