-- ===== src/Blockchain.antt =====
-- packages/blockchain/src/types.ts: what the other packages read of the chain. Answers of the chain
-- are arguments of the definitions that query it.
pub mod Transaction
mod Tests
pub mod Customers
pub mod Nodes
use cere_ddc_sdk_js.Common.{ℕ, Bool, Option, String, List}
use cere_ddc_sdk_js.Routing.{Mode}

-- `Bucket`
pub record Bucket : Type 0 where
  pub bucket_id : ℕ
  pub owner_id : String
  pub cluster_id : String
  pub is_public : Bool
  pub is_removed : Bool

-- `StorageNodeProps`
pub record StorageNodeProps : Type 0 where
  pub host : String
  pub http_port : ℕ
  pub grpc_port : ℕ
  pub p2p_port : ℕ
  pub mode : Mode
  pub domain : Option String
  pub ssl : Option Bool

-- `StorageNode`, as the chain lists it
pub record ChainNode : Type 0 where
  pub pub_key : String
  pub provider_id : String
  pub cluster_id : Option String
  pub props : StorageNodeProps

-- The chain at the time of a query: `ddcCustomers.getBucket` and `ddcNodes.listStorageNodes`.
pub record Chain : Type 0 where
  pub get_bucket : ℕ → Option Bucket
  pub list_storage_nodes : List ChainNode
