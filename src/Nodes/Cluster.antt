-- ===== src/Nodes/Cluster.antt =====
-- The storage nodes (packages/ddc/src/nodes/StorageNode.ts) that the balanced node of
-- packages/ddc/src/nodes/BalancedNode.ts asks: what a storage node throws, and its operations as the
-- operations of a node. `message` gives the text of an error that is no RPC error.
pub mod Refused
mod Tests
use cere_ddc_sdk_js.Common.{Result, ok, err, String}
use cere_ddc_sdk_js.FileApi.{FileError, call_failed}
use cere_ddc_sdk_js.CnsApi
use cere_ddc_sdk_js.DagApi
use cere_ddc_sdk_js.Nodes.{Thrown, plain_error}
use cere_ddc_sdk_js.Nodes.Operations.{NodeOperations}
use cere_ddc_sdk_js.StorageNode
use cere_ddc_sdk_js.StorageNode.{NodeFailure, file_failed, dag_failed, cns_failed, Apis, Session}

-- A storage node: its tokens and its APIs.
pub record NodeHandle (W : Type 0) : Type 0 where
  pub session : Session
  pub apis : Apis W

-- What is thrown: the error of the RPC call, or an `Error`.
abbrev pub failure_thrown : (NodeFailure → String) → NodeFailure → Thrown
failure_thrown message (file_failed (call_failed e)) = e
failure_thrown message (dag_failed (DagApi.dag_failed e)) = e
failure_thrown message (cns_failed (CnsApi.cns_failed e)) = e
failure_thrown message failure = plain_error (message failure)

abbrev pub thrown_by :
    {W A : Type 0} → (NodeFailure → String) → W × Result NodeFailure A → W × Result Thrown A
thrown_by message (w, ok a) = (w, ok a)
thrown_by message (w, err failure) = (w, err (failure_thrown message failure))

module _ {W Node : Type 0} (message : NodeFailure → String) (handle_of : Node → NodeHandle W) where
  -- The operations of `StorageNode`, as `NodeInterface` has them.
  abbrev pub operations_of : NodeOperations W Node
  operations_of = record {
    on_store_piece = λ node bucket_id piece options w. thrown_by message (
        StorageNode.store_piece (handle_of node).session (handle_of node).apis bucket_id options
          piece w);
    on_read_piece = λ node bucket_id cid range options w. thrown_by message (
        StorageNode.read_piece (handle_of node).session (handle_of node).apis bucket_id options
          range cid w);
    on_store_dag_node = λ node bucket_id dag_node options w. thrown_by message (
        StorageNode.store_dag_node (handle_of node).session (handle_of node).apis bucket_id options
          dag_node w);
    on_get_dag_node = λ node bucket_id path cid options w. thrown_by message (
        StorageNode.get_dag_node (handle_of node).session (handle_of node).apis bucket_id options
          path cid w);
    on_store_cns_record = λ node bucket_id r options w. thrown_by message (
        StorageNode.store_cns_record (handle_of node).session (handle_of node).apis bucket_id
          options r w);
    on_get_cns_record = λ node bucket_id name options w. thrown_by message (
        StorageNode.get_cns_record (handle_of node).session (handle_of node).apis bucket_id options
          name w);
    on_resolve_name = λ node bucket_id name options w. thrown_by message (
        StorageNode.resolve_name (handle_of node).session (handle_of node).apis bucket_id options
          name w);
  }
