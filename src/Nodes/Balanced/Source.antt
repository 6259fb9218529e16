-- ===== src/Nodes/Balanced/Source.antt =====
-- What `withRetry` of packages/ddc/src/nodes/BalancedNode.ts asks of `Router.getNode`, as an
-- interface.
use cere_ddc_sdk_js.Common.{◌≡◌, true, false, List, String, Result, ok, err, includes, string_eq}
use cere_ddc_sdk_js.Nodes.{Thrown, is_error}

-- A node that is returned is not excluded, and what is thrown is an `Error`.
pub record NodeSource (W : Type 0) {Node : Type 0} (node_id : Node → String) : Type 0 where
  pub get_node : List String → W → W × Result Thrown Node
  pub fresh :
      (exclude : List String) (world : W) (node : Node)
      → (get_node exclude world).1 ≡ ok node
      → includes exclude (node_id node) ≡ false
  pub errors :
      (exclude : List String) (world : W) (e : Thrown)
      → (get_node exclude world).1 ≡ err e
      → is_error e ≡ true
