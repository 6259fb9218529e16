-- ===== src/DagApi/Validation.antt =====
-- What a caller of `getNode` of packages/ddc/src/DagApi/DagApi.ts can rely on.
use cere_ddc_sdk_js.Common.{
  ℕ, ◌≡◌, refl, Bool, true, Option, String, Result, ok, err, Bool-cases, inl, inr,
}
use cere_ddc_sdk_js.Streams.{Bytes}
use cere_ddc_sdk_js.Nodes.{Thrown}
use cere_ddc_sdk_js.Auth.{Signer}
use cere_ddc_sdk_js.Auth.{Token}
use cere_ddc_sdk_js.Activity.{Environment, Moment, RpcMeta, ActivityError}
use cere_ddc_sdk_js.DagNode.{ApiNode}
use cere_ddc_sdk_js.DagApi.{
  DagError, DagCalls, has_no_path, hashed, get_result, get_requested, get_meta, get_node,
}

module _ {W : Type 0} (env : Environment) (to_binary : ApiNode → Bytes)
    (same_hash : Bytes → Bytes → Bool) (calls : DagCalls W) where
  -- The node is what the service returned, and its binary form has the hash of the CID; a node that
  -- is missing counts as no bytes.
  abbrev pub IsValid : ℕ → Bytes → Option String → Option ApiNode → W → W → Type 0
  IsValid bucket cid path dag_node w w' =
      ((meta : RpcMeta) × (calls.get meta bucket cid path w ≡ (w', ok dag_node)))
      × (same_hash cid (hashed env to_binary same_hash calls dag_node) ≡ true)

  module _ (bucket : ℕ) (cid : Bytes) (path : Option String) (w w' : W)
      (dag_node : Option ApiNode) where
    answer-IsValid :
        (meta : RpcMeta) (answer : W × Result Thrown (Option ApiNode))
        → calls.get meta bucket cid path w ≡ answer
        → get_result env to_binary same_hash calls true cid answer ≡ (w', ok dag_node)
        → IsValid bucket cid path dag_node w w'
    answer-IsValid meta (v, ok got) e h =
        elim (Bool-cases (same_hash cid (hashed env to_binary same_hash calls got))) [
          | inl same ↦
              let final : ◌≡◌ {A = W × Result DagError (Option ApiNode)} (v, ok got)
                  (w', ok dag_node) =
                rw (same) at h in
              ((meta, cc), cc)
          | inr differs ↦ cc (rw (differs) at h)
        ]
    answer-IsValid meta (v, err x) e h = cc

    requested-IsValid :
        (requested : Result ActivityError RpcMeta)
        → get_requested env to_binary same_hash calls true bucket cid path requested w
          ≡ (w', ok dag_node)
        → IsValid bucket cid path dag_node w w'
    requested-IsValid (ok meta) h = answer-IsValid meta _ refl h
    requested-IsValid (err e) h = cc

  -- An authenticated call without a path returns only what the service returned, and only if the
  -- binary form of the node, or no bytes if there is no node, has the hash of the CID.
  pub get_node-IsValid :
      (signer : Option Signer) (moment : Moment) (token : Option Token) (bucket : ℕ) (cid : Bytes)
      (path correlation_id : Option String) (w w' : W) (dag_node : Option ApiNode)
      → has_no_path path ≡ true
      → get_node env to_binary same_hash calls true signer moment token bucket cid path
          correlation_id w
        ≡ (w', ok dag_node)
      → IsValid bucket cid path dag_node w w'
  unfolding get_node
  get_node-IsValid signer moment token bucket cid path correlation_id w w' dag_node no_path h =
      requested-IsValid bucket cid path w w' dag_node
        (get_meta env to_binary same_hash calls signer moment token bucket cid correlation_id)
        (rw (no_path) at h)
