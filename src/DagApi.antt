-- ===== src/DagApi.antt =====
-- packages/ddc/src/DagApi/DagApi.ts with packages/ddc/src/validators/DagNodeValidator.ts: DAG nodes
-- are put and got, and validated when they are got. The RPC calls, the binary form of a node and
-- the hash are arguments.
pub mod Validation
mod Tests
use cere_ddc_sdk_js.Common.{
  ℕ, length, Bool, true, false, not, ◌&&◌, Option, none, some, List, [], String, Result, ok, err,
  string_eq, ◌===◌, if◌then◌else◌, or_else,
}
use cere_ddc_sdk_js.Streams.{Bytes}
use cere_ddc_sdk_js.Nodes.{Thrown}
use cere_ddc_sdk_js.Auth.{Signer, AuthError}
use cere_ddc_sdk_js.Auth.{Token}
use cere_ddc_sdk_js.Activity.{
  Environment, Moment, RpcMeta, ActivityError, store, get, create_rpc_meta, with_activity,
}
use cere_ddc_sdk_js.DagNode.{ApiNode}

-- The RPC calls `put`, with the bytes of a CID if there are any, and `get` with the CID and the path.
pub record DagCalls (W : Type 0) : Type 0 where
  pub put : RpcMeta → ℕ → ApiNode → Option Bytes → W → W × Result Thrown Bytes
  pub get : RpcMeta → ℕ → Bytes → Option String → W → W × Result Thrown (Option ApiNode)

pub data DagError : Type 0 where
  activity_failed : ActivityError → DagError
  dag_failed : Thrown → DagError
  -- 'Received content is not valid - hash does not match'
  invalid_node : DagError

-- `!request.path`
abbrev pub has_no_path : Option String → Bool
has_no_path none = true
has_no_path (some path) = path === ""

abbrev pub put_result : {W : Type 0} → W × Result Thrown Bytes → W × Result DagError Bytes
put_result (w, ok cid) = (w, ok cid)
put_result (w, err e) = (w, err (dag_failed e))

module _ {W : Type 0} (env : Environment) (to_binary : ApiNode → Bytes)
    (same_hash : Bytes → Bytes → Bool) (calls : DagCalls W) where
  abbrev pub put_requested :
      ℕ → ApiNode → Option Bytes → Result ActivityError RpcMeta → W → W × Result DagError Bytes
  put_requested bucket node cid (ok meta) w = put_result (calls.put meta bucket node cid w)
  put_requested bucket node cid (err e) w = (w, err (activity_failed e))

  -- The metadata of `putNode`; an activity request is made only if there is a signer.
  abbrev pub put_meta :
      Option Signer
      → Moment
      → Option Token
      → ℕ
      → ApiNode
      → Option Bytes
      → Option String
      → Result ActivityError RpcMeta
  put_meta signer moment token bucket node cid correlation_id =
      with_activity env moment
        (record {
          request_id = none;
          request_type = store;
          bucket_id = bucket;
          id = cid;
          offset = none;
          size = some (length (to_binary node));
        })
        signer token (create_rpc_meta env moment correlation_id token)

  -- `putNode`, for a request with a node
  unfoldable pub put_node :
      Option Signer
      → Moment
      → Option Token
      → ℕ
      → ApiNode
      → Option Bytes
      → Option String
      → W
      → W × Result DagError Bytes
  put_node signer moment token bucket node cid correlation_id w =
      put_requested bucket node cid (put_meta signer moment token bucket node cid correlation_id) w

  -- What entered the hasher: the binary form of the node, or nothing where there is no node.
  abbrev pub hashed : Option ApiNode → Bytes
  hashed none = []
  hashed (some node) = to_binary node

  -- `update` and `validate` of the validator for the CID.
  abbrev pub validated : Bool → Bytes → Option ApiNode → Result DagError (Option ApiNode)
  validated authenticate cid node =
      if authenticate
      then (if same_hash cid (hashed node) then ok node else err invalid_node)
      else ok node

  abbrev pub get_result :
      Bool → Bytes → W × Result Thrown (Option ApiNode) → W × Result DagError (Option ApiNode)
  get_result authenticate cid (w, ok node) = (w, validated authenticate cid node)
  get_result authenticate cid (w, err e) = (w, err (dag_failed e))

  -- The metadata of `getNode`
  abbrev pub get_meta :
      Option Signer
      → Moment
      → Option Token
      → ℕ
      → Bytes
      → Option String
      → Result ActivityError RpcMeta
  get_meta signer moment token bucket cid correlation_id =
      with_activity env moment
        (record {
          request_id = none;
          request_type = get;
          bucket_id = bucket;
          id = some cid;
          offset = none;
          size = none;
        })
        signer token (create_rpc_meta env moment correlation_id token)

  abbrev pub get_requested :
      Bool
      → ℕ
      → Bytes
      → Option String
      → Result ActivityError RpcMeta
      → W
      → W × Result DagError (Option ApiNode)
  get_requested authenticate bucket cid path (ok meta) w =
      get_result authenticate cid (calls.get meta bucket cid path w)
  get_requested authenticate bucket cid path (err e) w = (w, err (activity_failed e))

  -- `getNode`, with the option to authenticate.
  unfoldable pub get_node :
      Bool
      → Option Signer
      → Moment
      → Option Token
      → ℕ
      → Bytes
      → Option String
      → Option String
      → W
      → W × Result DagError (Option ApiNode)
  get_node authenticate signer moment token bucket cid path correlation_id w =
      get_requested (authenticate && has_no_path path) bucket cid path
        (get_meta signer moment token bucket cid correlation_id) w
