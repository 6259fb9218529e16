-- ===== src/Nodes/Operations.antt =====
-- packages/ddc/src/nodes/BalancedNode.ts: the operations of a balanced node, each of which passes
-- the operation of one node to `withRetry`. The nodes' operations are an interface.
pub mod Static
use cere_ddc_sdk_js.Common.{
  ℕ, zero, suc, Bool, true, false, Option, none, some, List, String, Result, ok, err, ltb,
  string_eq, ◌===◌, if◌then◌else◌,
}
use cere_ddc_sdk_js.Piece.{Piece, PieceError, no_size, locked_stream, MultipartPiece, from}
use cere_ddc_sdk_js.Routing.{
  Operation, read_dag_node, store_dag_node, read_piece, store_piece, store_cns_record,
  read_cns_record,
}
use cere_ddc_sdk_js.Nodes.{Thrown, plain_error}
use cere_ddc_sdk_js.Nodes.Retry.{RetryLibrary}
use cere_ddc_sdk_js.Nodes.Balanced.{RetryState, with_retry}
use cere_ddc_sdk_js.StorageNode.{
  OperationOptions, AnyPiece, single, multipart, CnsRecord, ApiRecord, Range,
}
use cere_ddc_sdk_js.DagNode.{DagNode}
use cere_ddc_sdk_js.Streams.{Bytes}
use cere_ddc_sdk_js.Cid.{Cid}
use cere_ddc_sdk_js.FileApi.{Transfer}

-- `NodeInterface`: the operations of a node in a world.
pub record NodeOperations (W Node : Type 0) : Type 0 where
  pub on_store_piece : Node → ℕ → AnyPiece → OperationOptions → W → W × Result Thrown String
  pub on_read_piece :
      Node → ℕ → String → Option Range → OperationOptions → W → W × Result Thrown (Cid × Transfer)
  pub on_store_dag_node : Node → ℕ → DagNode → OperationOptions → W → W × Result Thrown String
  pub on_get_dag_node :
      Node → ℕ → Option String → String → OperationOptions → W → W × Result Thrown (Option DagNode)
  pub on_store_cns_record :
      Node → ℕ → CnsRecord → OperationOptions → W → W × Result Thrown ApiRecord
  pub on_get_cns_record :
      Node → ℕ → String → OperationOptions → W → W × Result Thrown (Option CnsRecord)
  pub on_resolve_name : Node → ℕ → String → OperationOptions → W → W × Result Thrown Cid

abbrev pub correlation_or : String → Option String → String
correlation_or fresh none = fresh
correlation_or fresh (some id) = if id === "" then fresh else id

-- `withCorrelationId`, with the id that `createCorrelationId` returns.
abbrev pub with_correlation_id : String → OperationOptions → OperationOptions
with_correlation_id fresh options = record options {
  correlation_id = some (correlation_or fresh options.correlation_id);
}

-- The message of an error of `Piece`.
abbrev pub piece_thrown : PieceError → Thrown
piece_thrown no_size = plain_error "The piece size can not be determined"
piece_thrown locked_stream = plain_error "The content stream is locked and can not be reused"

abbrev pub single_or : Result PieceError Piece → Result Thrown AnyPiece
single_or (ok piece) = ok (single piece)
single_or (err e) = err (piece_thrown e)

-- `Piece.isPiece(piece) && attempt > 0 ? Piece.from(piece) : piece`, with the state of the stream.
abbrev pub piece_for : Bool → ℕ → AnyPiece → Result Thrown AnyPiece
piece_for locked attempt (multipart piece) = ok (multipart piece)
piece_for locked attempt (single piece) =
    if ltb 0 attempt then single_or (from locked piece) else ok (single piece)

abbrev pub store_on :
    {W : Type 0}
    → (AnyPiece → W → W × Result Thrown String)
    → W × Result Thrown AnyPiece
    → W × Result Thrown String
store_on send (w, ok piece) = send piece w
store_on send (w, err e) = (w, err e)

module _ {W Node : Type 0} (node_id : Node → String)
    (get_node : Operation → ℕ → List String → W → W × Result Thrown Node)
    (operations : NodeOperations W Node) (fresh : String) (retries : ℕ) (bucket_id : ℕ)
    (given : OperationOptions) where
  abbrev pub options : OperationOptions
  options = with_correlation_id fresh given

  abbrev pub retried :
      {A : Type 0}
      → RetryLibrary (RetryState W Node A) A
      → Operation
      → (Node → ℕ → W → W × Result Thrown A)
      → W
      → RetryState W Node A × Result Thrown A
  retried library operation body =
      with_retry node_id (get_node operation bucket_id) body options.correlation_id library retries

  -- `storePiece`; the second argument says whether the content stream is locked.
  unfoldable pub balanced_store_piece :
      RetryLibrary (RetryState W Node String) String
      → (W → Bool)
      → AnyPiece
      → W
      → RetryState W Node String × Result Thrown String
  unfolding from
  balanced_store_piece library locked piece = retried library store_piece (λ node attempt w.
      store_on (λ p. operations.on_store_piece node bucket_id p options)
        (w, piece_for (locked w) attempt piece))

  unfoldable pub balanced_read_piece :
      RetryLibrary (RetryState W Node (Cid × Transfer)) (Cid × Transfer)
      → String
      → Option Range
      → W
      → RetryState W Node (Cid × Transfer) × Result Thrown (Cid × Transfer)
  balanced_read_piece library cid_or_name range =
      retried library read_piece
        (λ node attempt. operations.on_read_piece node bucket_id cid_or_name range options)

  unfoldable pub balanced_store_dag_node :
      RetryLibrary (RetryState W Node String) String
      → DagNode
      → W
      → RetryState W Node String × Result Thrown String
  balanced_store_dag_node library dag_node =
      retried library store_dag_node
        (λ node attempt. operations.on_store_dag_node node bucket_id dag_node options)

  unfoldable pub balanced_get_dag_node :
      RetryLibrary (RetryState W Node (Option DagNode)) (Option DagNode)
      → Option String
      → String
      → W
      → RetryState W Node (Option DagNode) × Result Thrown (Option DagNode)
  balanced_get_dag_node library path cid_or_name =
      retried library read_dag_node
        (λ node attempt. operations.on_get_dag_node node bucket_id path cid_or_name options)

  unfoldable pub balanced_store_cns_record :
      RetryLibrary (RetryState W Node ApiRecord) ApiRecord
      → CnsRecord
      → W
      → RetryState W Node ApiRecord × Result Thrown ApiRecord
  balanced_store_cns_record library cns_record =
      retried library store_cns_record
        (λ node attempt. operations.on_store_cns_record node bucket_id cns_record options)

  unfoldable pub balanced_get_cns_record :
      RetryLibrary (RetryState W Node (Option CnsRecord)) (Option CnsRecord)
      → String
      → W
      → RetryState W Node (Option CnsRecord) × Result Thrown (Option CnsRecord)
  balanced_get_cns_record library name =
      retried library read_cns_record
        (λ node attempt. operations.on_get_cns_record node bucket_id name options)

  unfoldable pub balanced_resolve_name :
      RetryLibrary (RetryState W Node Cid) Cid
      → String
      → W
      → RetryState W Node Cid × Result Thrown Cid
  balanced_resolve_name library cid_or_name =
      retried library read_cns_record
        (λ node attempt. operations.on_resolve_name node bucket_id cid_or_name options)
