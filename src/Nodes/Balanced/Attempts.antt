-- ===== src/Nodes/Balanced/Attempts.antt =====
-- The invariant of the attempts of packages/ddc/src/nodes/BalancedNode.ts.

use cere_ddc_sdk_js.Common.{
  ℕ, suc, ◌≤◌, ◌≡◌, ◌≢◌, refl, sym, ap, subst, Bool, true, false, Option, none, some, List, [], ◌∷◌,
  map, String, Result, ok, err, arith, All, includes, string_eq, length, inl, inr, Bool-cases,
}
use cere_ddc_sdk_js.Common.Sort.{IsOrdered}
use cere_ddc_sdk_js.Nodes.{
  Thrown, from_rpc_error, node_error, RpcError, is_error, as_rpc_error, is_retryable,
}
use cere_ddc_sdk_js.Nodes.Retry.{thrown}
use cere_ddc_sdk_js.Nodes.Balanced.{pop, Call, RetryState, take_node, handle, ask}

-- The error has a code for which the operation is tried again.
abbrev pub is_transient : Option RpcError → Bool
is_transient none = false
is_transient (some rpc) = is_retryable rpc.code

abbrev pub is_retried : {A : Type 0} → Result Thrown A → Bool
is_retried (ok a) = false
is_retried (err e) = is_transient (as_rpc_error e)

-- An RPC error is reported with its node and the operation's correlation id.
abbrev pub report :
    {Node : Type 0} → (Node → String) → Option String → Node → Thrown → Option RpcError → Thrown
report node_id correlation_id node e none = e
report node_id correlation_id node e (some rpc) =
    node_error
      (record { rpc = rpc; node_id = some (node_id node); correlation_id = correlation_id })

abbrev pub reported :
    {Node A : Type 0} → (Node → String) → Option String → Node → Result Thrown A → Result Thrown A
reported node_id correlation_id node (ok a) = ok a
reported node_id correlation_id node (err e) =
    err (report node_id correlation_id node e (as_rpc_error e))

abbrev pub IsRetried : {Node A : Type 0} → Call Node A → Type 0
IsRetried c = is_retried c.outcome ≡ true

abbrev pub Differ : {Node : Type 0} → (Node → String) → Node → Node → Type 0
Differ node_id a b = node_id a ≢ node_id b

module _ {Node : Type 0} (node_id : Node → String) where
  not_included :
      (nodes : List Node) (node : Node)
      → includes (map node_id nodes) (node_id node) ≡ false
      → All (Differ node_id node) nodes
  not_included [] node h = tt
  not_included (n ∷ nodes) node h = (
    (λ e. cc (sym h, (string_eq.beq_iff (node_id n) (node_id node)).1 (sym e))),
    not_included nodes node (ground (arith, h)),
  )

  pop-All : (P : Node → Type 0) (xs : List Node) → All P xs → All P (pop xs).0
  unfolding pop
  pop-All P [] h = tt
  pop-All P (x ∷ []) h = tt
  pop-All P (x ∷ y ∷ xs) h = (h.0, pop-All P (y ∷ xs) h.1)

  pop-IsOrdered :
      (xs : List Node) → IsOrdered (Differ node_id) xs → IsOrdered (Differ node_id) (pop xs).0
  unfolding pop
  pop-IsOrdered [] o = tt
  pop-IsOrdered (x ∷ []) o = tt
  pop-IsOrdered (x ∷ y ∷ xs) o = (pop-All _ (y ∷ xs) o.0, pop-IsOrdered (y ∷ xs) o.1)

module _ {Node A : Type 0} (node_id : Node → String) (correlation_id : Option String) where
  abbrev pub call_report : Call Node A → Result Thrown A
  call_report c = reported node_id correlation_id c.node c.outcome

  -- The error that the latest call left behind.
  abbrev pub IsLatest : List (Call Node A) → Option Thrown → Type 0
  IsLatest [] e = e ≡ none
  IsLatest (c ∷ _) none = ⊥
  IsLatest (c ∷ _) (some e) = call_report c ≡ err e

module _ {W Node A : Type 0} (node_id : Node → String) (correlation_id : Option String) where
  -- Before attempt `n`.
  pub record Inv (n : ℕ) (s : RetryState W Node A) : Type 0 where
    pub bounded : suc (length s.calls) ≤ n
    pub exact : s.last_router_error ≡ none → suc (length s.calls) ≡ n
    pub retried : All IsRetried s.calls
    pub latest : IsLatest node_id correlation_id s.calls s.last_operation_error
    pub contacted : s.last_router_error ≡ none → map (λ c. c.node) s.calls ≡ s.exclude
    pub distinct : IsOrdered (Differ node_id) s.exclude

  abbrev pub Contacted : RetryState W Node A → Option Node → Type 0
  Contacted s none = s.last_router_error ≢ none
  Contacted s (some node) =
      s.last_router_error ≡ none → node ∷ map (λ c. c.node) s.calls ≡ s.exclude

  -- In attempt `n`, after the choice of a node.
  pub record Taken (n : ℕ) (s : RetryState W Node A) (node : Option Node) : Type 0 where
    pub bounded : suc (length s.calls) ≤ n
    pub exact : s.last_router_error ≡ none → suc (length s.calls) ≡ n
    pub retried : All IsRetried s.calls
    pub latest : IsLatest node_id correlation_id s.calls s.last_operation_error
    pub contacted : Contacted s node
    pub distinct : IsOrdered (Differ node_id) s.exclude

  Contacted-after_error :
      (s : RetryState W Node A) (node : Option Node) → s.last_router_error ≢ none → Contacted s node
  Contacted-after_error s none h = h
  Contacted-after_error s (some node) h = λ e. absurd (h e)

  pub take_node-Taken :
      (n : ℕ) (s : RetryState W Node A) (w : W) (r : Result Thrown Node)
      → Inv n s
      → ((node : Node) → r ≡ ok node → includes (map node_id s.exclude) (node_id node) ≡ false)
      → ((e : Thrown) → r ≡ err e → is_error e ≡ true)
      → Taken n (take_node s (w, r)).0 (take_node s (w, r)).1
  take_node-Taken n s w (ok node) h fresh errors = record {
    bounded = h.bounded;
    exact = h.exact;
    retried = h.retried;
    latest = h.latest;
    contacted = λ e. ap (◌∷◌ node) (h.contacted e);
    distinct = (not_included node_id s.exclude node (fresh node refl), h.distinct);
  }
  take_node-Taken n s w (err e) h fresh errors =
      let failed : (take_node s (w, err e)).0.last_router_error ≢ none =
        λ f. ground (arith, errors e refl, f) in
      record {
        bounded = h.bounded;
        exact = λ f. absurd (failed f);
        retried = h.retried;
        latest = h.latest;
        contacted = Contacted-after_error (take_node s (w, err e)).0 _ failed;
        distinct = pop-IsOrdered node_id s.exclude h.distinct;
      }

  abbrev pub called : ℕ → RetryState W Node A → Node → W → Result Thrown A → RetryState W Node A
  called n s node w r = record s {
    world = w;
    calls = record { node = node; attempt = n; outcome = r } ∷ s.calls;
  }

  -- A rejected attempt that asked a node failed with a code to retry.
  handle-Inv :
      (n : ℕ) (s : RetryState W Node A) (node : Node) (w : W) (x : Thrown) (rpc : Option RpcError)
      {s' : RetryState W Node A} {e : Thrown}
      → Taken n s (some node)
      → as_rpc_error x ≡ rpc
      → handle node_id correlation_id x node rpc (called n s node w (err x)) ≡ (s', thrown e)
      → Inv (suc n) s'
  unfolding from_rpc_error
  handle-Inv n s node w x none t same eq = cc (ap (λ p. p.1) eq)
  handle-Inv n s node w x (some rpc) t same eq = elim (Bool-cases (is_retryable rpc.code)) [
    | inr stop ↦ cc (ap (λ p. p.1) (rw (stop, handle) at eq))
    | inl again ↦ subst (Inv (suc n)) (ap (λ p. p.0) (rw (again, handle) at eq)) (record {
      bounded = omega (arith, t.bounded);
      exact = λ f. omega (arith, t.exact f);
      retried = (rw same again, t.retried);
      latest = rw same refl;
      contacted = t.contacted;
      distinct = t.distinct;
    })
  ]

  pub ask-Inv :
      (n : ℕ) (s : RetryState W Node A) (node : Node) (w : W) (r : Result Thrown A)
      {s' : RetryState W Node A} {e : Thrown}
      → Taken n s (some node)
      → ask node_id correlation_id n s node (w, r) ≡ (s', thrown e)
      → Inv (suc n) s'
  ask-Inv n s node w (ok a) t eq = cc (ap (λ p. p.1) eq)
  ask-Inv n s node w (err x) t eq = handle-Inv n s node w x (as_rpc_error x) t refl eq
