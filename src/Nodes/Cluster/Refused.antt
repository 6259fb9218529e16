-- ===== src/Nodes/Cluster/Refused.antt =====
-- Operations of the balanced node of packages/ddc/src/nodes/BalancedNode.ts that a storage node
-- refuses: no other node is asked.
use cere_ddc_sdk_js.Common.{
  ℕ, ◌<◌, ◌≡◌, refl, ap, ◌∙◌, Option, none, List, [], ◌∷◌, String, Result, ok, err, length, Bool,
  lt→ltb, arith, inl, inr,
}
use cere_ddc_sdk_js.Streams.{Bytes, bytes}
use cere_ddc_sdk_js.Auth.{Token}
use cere_ddc_sdk_js.Piece.{PieceMeta, new_piece}
use cere_ddc_sdk_js.Piece.Size.{new_piece_bytes}
use cere_ddc_sdk_js.Routing.{Operation, store_piece}
use cere_ddc_sdk_js.FileApi.{max_piece_size, piece_too_large}
use cere_ddc_sdk_js.StorageNode
use cere_ddc_sdk_js.StorageNode.{
  NodeFailure, OperationOptions, Session, single, token_for, file_failed,
}
use cere_ddc_sdk_js.StorageNode.Wired.{Packages, NodeConfig, Server, apis_of}
use cere_ddc_sdk_js.Nodes.{Thrown, plain_error, as_rpc_error}
use cere_ddc_sdk_js.Nodes.Retry.{RetryLibrary}
use cere_ddc_sdk_js.Nodes.Balanced.{RetryState, attempt_once, with_retry, start}
use cere_ddc_sdk_js.Nodes.Operations.{with_correlation_id, balanced_store_piece}
use cere_ddc_sdk_js.Nodes.Operations.Static.{balanced_store_piece_bytes}
use cere_ddc_sdk_js.Nodes.Cluster.{thrown_by, NodeHandle, operations_of}

-- The state after one call that failed.
abbrev pub asked_once : {W Node A : Type 0} → Node → Thrown → W → RetryState W Node A
asked_once node e w = record {
  world = w;
  exclude = node ∷ [];
  last_operation_error = none;
  last_router_error = none;
  calls = record { node = node; attempt = 1; outcome = err e } ∷ [];
}

module _ {W Node A : Type 0} (node_id : Node → String)
    (get_node : List String → W → W × Result Thrown Node)
    (body : Node → ℕ → W → W × Result Thrown A) (correlation_id : Option String) where
  with_retry_bailed :
      (library : RetryLibrary (RetryState W Node A) A) (retries : ℕ) (w v u : W) (node : Node)
      (e : Thrown)
      → get_node [] w ≡ (v, ok node)
      → body node 1 v ≡ (u, err e)
      → as_rpc_error e ≡ none
      → with_retry node_id get_node body correlation_id library retries w
        ≡ (asked_once node e u, err e)
  unfolding with_retry attempt_once
  with_retry_bailed library retries w v u node e g b n =
      library.run_bailed retries 1 _ (start w) (asked_once node e u) e
        (rw (g) (rw (b) (rw (n) refl)))

module _ (packages : Packages) (config : NodeConfig) (session : Session) {W : Type 0}
    (server : Server W) (bucket_id : ℕ) (options : OperationOptions) where
  store_piece_too_large :
      (b : Bytes) (meta : PieceMeta) (token : Token) (w : W)
      → token_for session options.access_token ≡ ok token
      → max_piece_size < length b
      → StorageNode.store_piece session
          (apis_of packages config session.signer server)
          bucket_id
          options
          (single (new_piece (bytes b) meta))
          w
        ≡ (w, err (file_failed piece_too_large))
  unfolding StorageNode.store_piece apis_of
  store_piece_too_large [] meta token w t large = absurd (omega (arith, large))
  store_piece_too_large (x ∷ b) meta token w t large = elim (new_piece_bytes (x ∷ b) meta).1 [
    | inl (_, e) ↦ rw (t) (rw (e) (rw (lt→ltb max_piece_size (length (x ∷ b)) large) refl))
    | inr (nothing, _) ↦ cc
  ]

module _ {W Node : Type 0} (node_id : Node → String)
    (get_node : Operation → ℕ → List String → W → W × Result Thrown Node)
    (message : NodeFailure → String) (packages : Packages) (config : NodeConfig)
    (session_of : Node → Session) (server_of : Node → Server W) (fresh : String) (retries : ℕ)
    (bucket_id : ℕ) (given : OperationOptions) where
  -- The storage node of a router's node.
  abbrev pub handle_of : Node → NodeHandle W
  handle_of node = record {
    session = session_of node;
    apis = apis_of packages config (session_of node).signer (server_of node);
  }

  -- Where the router has a node, and the node makes its token: a byte array that is larger than a
  -- piece may be is refused by that node with no RPC call, and no other node is asked.
  pub balanced_store_piece_too_large :
      (library : RetryLibrary (RetryState W Node String) String) (locked : W → Bool) (b : Bytes)
      (meta : PieceMeta) (w v : W) (node : Node) (token : Token)
      → get_node store_piece bucket_id [] w ≡ (v, ok node)
      → token_for (session_of node) given.access_token ≡ ok token
      → max_piece_size < length b
      → balanced_store_piece node_id get_node
          (operations_of message handle_of)
          fresh
          retries
          bucket_id
          given
          library
          locked
          (single (new_piece (bytes b) meta))
          w
        ≡ (
          asked_once node (plain_error (message (file_failed piece_too_large))) v,
          err (plain_error (message (file_failed piece_too_large))),
        )
  balanced_store_piece_too_large library locked b meta w v node token g t large =
      let refused = plain_error (message (file_failed piece_too_large)) in
      balanced_store_piece_bytes node_id get_node (operations_of message handle_of) fresh retries
        bucket_id given library locked b meta w
      ∙ with_retry_bailed node_id (get_node store_piece bucket_id) _ _ library retries w v v node
          refused g
          (ap (thrown_by message) (
            store_piece_too_large packages config (session_of node) (server_of node) bucket_id
              (with_correlation_id fresh given) b meta token v t large))
          refl
