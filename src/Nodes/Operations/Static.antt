-- ===== src/Nodes/Operations/Static.antt =====
-- Storing a piece through the balanced node of packages/ddc/src/nodes/BalancedNode.ts, again and
-- again.
use cere_ddc_sdk_js.Common.{ℕ, ◌≡◌, refl, Bool, List, String, Result, ok, ltb, Bool-cases, inl, inr}
use cere_ddc_sdk_js.Streams.{Bytes, bytes}
use cere_ddc_sdk_js.Piece.{PieceMeta, new_piece, from}
use cere_ddc_sdk_js.Routing.{Operation, store_piece}
use cere_ddc_sdk_js.Nodes.{Thrown}
use cere_ddc_sdk_js.Nodes.Retry.{RetryLibrary}
use cere_ddc_sdk_js.Nodes.Balanced.{RetryState}
use cere_ddc_sdk_js.StorageNode.{OperationOptions, single}
use cere_ddc_sdk_js.Nodes.Operations.{
  NodeOperations, piece_for, store_on, options, retried, balanced_store_piece,
}

-- A copy of a piece of bytes is the piece, also when its stream was read before.
piece_for_bytes :
    (locked : Bool) (attempt : ℕ) (b : Bytes) (meta : PieceMeta)
    → piece_for locked attempt (single (new_piece (bytes b) meta))
      ≡ ok (single (new_piece (bytes b) meta))
unfolding from new_piece
piece_for_bytes locked attempt b meta = elim (Bool-cases (ltb 0 attempt)) [
  | inl e ↦ rw (e) refl
  | inr e ↦ rw (e) refl
]

module _ {W Node : Type 0} (node_id : Node → String)
    (get_node : Operation → ℕ → List String → W → W × Result Thrown Node)
    (operations : NodeOperations W Node) (fresh : String) (retries : ℕ) (bucket_id : ℕ)
    (given : OperationOptions) where
  -- A piece of a byte array is stored as if it were made anew for each attempt: every node that is
  -- asked gets the same whole piece, whatever the state of the stream that an earlier attempt read.
  pub balanced_store_piece_bytes :
      (library : RetryLibrary (RetryState W Node String) String) (locked : W → Bool) (b : Bytes)
      (meta : PieceMeta) (w : W)
      → balanced_store_piece node_id get_node operations fresh retries bucket_id given library
          locked
          (single (new_piece (bytes b) meta))
          w
        ≡ retried node_id get_node operations fresh retries bucket_id given library store_piece
            (λ node attempt.
              operations.on_store_piece node bucket_id
                (single (new_piece (bytes b) meta))
                (options node_id get_node operations fresh retries bucket_id given))
            w
  unfolding balanced_store_piece
  balanced_store_piece_bytes library locked b meta w i =
      retried node_id get_node operations fresh retries bucket_id given library store_piece
        (λ node attempt v.
          store_on
            (λ p.
              operations.on_store_piece node bucket_id p
                (options node_id get_node operations fresh retries bucket_id given))
            (v, piece_for_bytes (locked v) attempt b meta i))
        w
