-- ===== src/Nodes/Balanced.antt =====
-- packages/ddc/src/nodes/BalancedNode.ts: `withRetry`, through which every operation of a balanced
-- node goes. The node source (the router) and the operation are arguments; they may change the
-- world. `calls` records what was asked of which node, the latest call first.
pub mod Source
pub mod Attempts
pub mod Outcome
pub mod Effort
use cere_ddc_sdk_js.Common.{
  ℕ, Bool, true, false, Option, none, some, List, [], ◌∷◌, map, String, Result, ok, err, or_else,
  or_option, if◌then◌else◌,
}
use cere_ddc_sdk_js.Nodes.{
  Thrown, node_error, plain_error, RpcError, NodeError, is_error, as_rpc_error, from_rpc_error,
  is_retryable,
}
use cere_ddc_sdk_js.Nodes.Retry.{Attempt, done, thrown, bailed, RetryLibrary}

abbrev pub retry_max_attempts : ℕ
retry_max_attempts = 5

-- `exclude.pop()`: what is left, and the last element.
unfoldable pub pop {ℓ} : {A : Type ℓ} → List A → List A × Option A
pop [] = ([], none)
pop (x ∷ []) = ([], some x)
pop (x ∷ y ∷ rest) = let (left, last) = pop (y ∷ rest) in (x ∷ left, last)

pub record Call (Node A : Type 0) : Type 0 where
  pub node : Node
  pub attempt : ℕ
  pub outcome : Result Thrown A

pub record RetryState (W Node A : Type 0) : Type 0 where
  pub world : W
  pub exclude : List Node
  pub last_operation_error : Option Thrown
  pub last_router_error : Option Thrown
  pub calls : List (Call Node A)

module _ {W Node A : Type 0} where
  -- The first `try`: the router's node, or on an error a node that failed before.
  abbrev pub take_node :
      RetryState W Node A → W × Result Thrown Node → RetryState W Node A × Option Node
  take_node s (world, ok node) = (record s { world = world; exclude = node ∷ s.exclude }, some node)
  take_node s (world, err error) =
      let (left, last) = pop s.exclude in
      (
        record s {
          world = world;
          exclude = left;
          last_router_error = if is_error error then some error else s.last_router_error;
        },
        last,
      )

  -- `lastOperationError ?? lastRouterError ?? new Error(…)`
  abbrev pub no_node_error : RetryState W Node A → Thrown
  no_node_error s =
      or_else (or_option s.last_operation_error s.last_router_error)
        (plain_error "No nodes available to handle the operation")

  abbrev pub start : W → RetryState W Node A
  start world = record {
    world = world;
    exclude = [];
    last_operation_error = none;
    last_router_error = none;
    calls = [];
  }

-- An RPC error with the node that it came from, and the operation's correlation id.
abbrev pub blame : {Node : Type 0} → (Node → String) → Option String → Node → RpcError → NodeError
blame node_id correlation_id node error = record (from_rpc_error error) {
  node_id = some (node_id node);
  correlation_id = correlation_id;
}

module _ {W Node A : Type 0} (node_id : Node → String) (correlation_id : Option String) where
  -- The `catch` of the second `try`.
  abbrev pub handle :
      Thrown → Node → Option RpcError → RetryState W Node A → RetryState W Node A × Attempt A
  handle error node none s = (s, bailed error)
  handle error node (some rpc) s =
      if is_retryable rpc.code
      then (
        record s {
          last_operation_error = some (node_error (blame node_id correlation_id node rpc));
        },
        thrown (node_error (blame node_id correlation_id node rpc)),
      )
      else (s, bailed (node_error (blame node_id correlation_id node rpc)))

  abbrev pub settle : Node → Result Thrown A → RetryState W Node A → RetryState W Node A × Attempt A
  settle node (ok a) s = (s, done a)
  settle node (err error) s = handle error node (as_rpc_error error) s

  -- The second `try`: the operation on the node.
  abbrev pub ask :
      ℕ → RetryState W Node A → Node → W × Result Thrown A → RetryState W Node A × Attempt A
  ask attempt s node (world, outcome) = settle node outcome (record s {
    world = world;
    calls = record { node = node; attempt = attempt; outcome = outcome } ∷ s.calls;
  })

module _ {W Node A : Type 0} (node_id : Node → String)
    (get_node : List String → W → W × Result Thrown Node)
    (body : Node → ℕ → W → W × Result Thrown A) (correlation_id : Option String) where
  abbrev pub use_node : ℕ → RetryState W Node A × Option Node → RetryState W Node A × Attempt A
  use_node attempt (s, none) = (s, thrown (no_node_error s))
  use_node attempt (s, some node) =
      ask node_id correlation_id attempt s node (body node attempt s.world)

  -- The function that `retry` calls for each attempt.
  unfoldable pub attempt_once : ℕ → RetryState W Node A → RetryState W Node A × Attempt A
  unfolding pop from_rpc_error
  attempt_once attempt s = use_node attempt (take_node s (get_node (map node_id s.exclude) s.world))

  unfoldable pub with_retry :
      RetryLibrary (RetryState W Node A) A → ℕ → W → RetryState W Node A × Result Thrown A
  with_retry library retries world = library.run retries 1 attempt_once (start world)

-- The configured number of retries: a number, options with or without `attempts`, or neither.
pub data RetriesConfig : Type 0 where
  unset : RetriesConfig
  number : ℕ → RetriesConfig
  options : Option ℕ → RetriesConfig

unfoldable pub configured_retries : RetriesConfig → ℕ
configured_retries unset = retry_max_attempts
configured_retries (number retries) = retries
configured_retries (options attempts) = or_else attempts retry_max_attempts
