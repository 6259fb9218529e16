-- ===== src/Blockchain/Nodes/Kept.antt =====
-- A storage node that is put on the chain with packages/blockchain/src/DDCNodesPallet.ts, and what the
-- router of packages/ddc/src/routing/BlockchainStrategy.ts makes of it.
use cere_ddc_sdk_js.Blockchain.{StorageNodeProps, ChainNode}
use cere_ddc_sdk_js.Common.{
  or_else, Bool, false, some, ◌≡◌, Option, some, String, or_else, string_eq,
}
use cere_ddc_sdk_js.Blockchain.Nodes.{Call, create_node, HexLib, JsonNode}

-- Text is read from its hexadecimal form as it was.
abbrev pub IsFaithful : HexLib → Type 0
IsFaithful hex = (s : Option String) → hex.hex_to_string (some (hex.string_to_hex s)) ≡ or_else s ""

-- What the chain keeps of a node that a call creates.
abbrev pub IsCreatedBy : Call → JsonNode → Type 0
IsCreatedBy (create_node key props) n = (n.pub_key ≡ key) × (n.props ≡ props)
IsCreatedBy _ n = ⊥

-- The node as it was given to `createStorageNode`.
abbrev pub given_node : JsonNode → StorageNodeProps → ChainNode
given_node n props = record {
  pub_key = n.pub_key;
  provider_id = n.provider_id;
  cluster_id = n.cluster_id;
  props = props;
}

module _ (hex : HexLib) (faithful : IsFaithful hex) (n : JsonNode) (key : String) where
  -- The properties that the chain keeps are read with an empty domain and without SSL where these were
  -- not given.
  read_props : StorageNodeProps → Option String → Option Bool → StorageNodeProps
  read_props props domain ssl = record props {
    domain = some (or_else domain "");
    ssl = some (or_else ssl false);
  }
