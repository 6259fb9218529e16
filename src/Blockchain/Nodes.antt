-- ===== src/Blockchain/Nodes.antt =====
-- packages/blockchain/src/DDCNodesPallet.ts: storage nodes on the chain, whose hosts and domains are
-- kept as hexadecimal text. The conversions of the API's utilities are arguments.
pub mod Kept
use cere_ddc_sdk_js.Common.{ℕ, Bool, true, false, Option, none, some, List, [], ◌∷◌, String}
use cere_ddc_sdk_js.Routing.{Mode}
use cere_ddc_sdk_js.Blockchain.{StorageNodeProps, ChainNode}

-- The calls of the pallet; a node is named by its public key.
pub data Call : Type 0 where
  create_node : String → StorageNodeProps → Call
  set_node_params : String → StorageNodeProps → Call
  delete_node : String → Call

-- `stringToHex` and `hexToString`, which take a value that may be undefined as empty.
pub record HexLib : Type 0 where
  pub string_to_hex : Option String → String
  pub hex_to_string : Option String → String

-- The JSON of a node has every field.
pub record JsonNode : Type 0 where
  pub pub_key : String
  pub provider_id : String
  pub cluster_id : Option String
  pub props : StorageNodeProps

module _ (hex : HexLib) where
  unfoldable pub encode_node_props : StorageNodeProps → StorageNodeProps
  encode_node_props props = record props {
    host = hex.string_to_hex (some props.host);
    domain = some (hex.string_to_hex props.domain);
  }

  unfoldable pub decode_node_props : StorageNodeProps → StorageNodeProps
  decode_node_props props = record props {
    host = hex.hex_to_string (some props.host);
    domain = some (hex.hex_to_string props.domain);
  }

  -- `{ ...defaultProps, ...storageNodeProps }`, where a property that is not there has its default.
  abbrev pub with_defaults : StorageNodeProps → Option String → Option Bool → StorageNodeProps
  with_defaults props none none = record props { domain = some ""; ssl = some false }
  with_defaults props none (some ssl) = record props { domain = some ""; ssl = some ssl }
  with_defaults props (some domain) none = record props { domain = some domain; ssl = some false }
  with_defaults props (some domain) (some ssl) = record props {
    domain = some domain;
    ssl = some ssl;
  }

  unfoldable pub create_storage_node : String → StorageNodeProps → Call
  unfolding encode_node_props
  create_storage_node key props =
      create_node key (encode_node_props (with_defaults props props.domain props.ssl))

  abbrev pub set_storage_node_props : String → StorageNodeProps → Call
  set_storage_node_props key props = set_node_params key (encode_node_props props)

  abbrev pub decoded_node : JsonNode → ChainNode
  decoded_node n = record {
    pub_key = n.pub_key;
    provider_id = n.provider_id;
    cluster_id = n.cluster_id;
    props = decode_node_props n.props;
  }

  -- `findStorageNodeByPublicKey`, of the JSON
  abbrev pub find_storage_node_by_public_key : Option JsonNode → Option ChainNode
  find_storage_node_by_public_key none = none
  find_storage_node_by_public_key (some n) = some (decoded_node n)

  -- `listStorageNodes`, of the JSON of the entries
  unfoldable pub list_storage_nodes : List (Option JsonNode) → List ChainNode
  unfolding decode_node_props
  list_storage_nodes [] = []
  list_storage_nodes (none ∷ rest) = list_storage_nodes rest
  list_storage_nodes (some n ∷ rest) = decoded_node n ∷ list_storage_nodes rest
