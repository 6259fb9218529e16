-- ===== src/Routing.antt =====
-- packages/ddc/src/routing: the choice of a storage node for an operation. This file has the data
-- of RoutingStrategy.ts; the strategies and the router are the modules below.
pub mod BaseStrategy
pub mod NodeType
pub mod Shuffle
pub mod Strategy
pub mod Ping
pub mod Router
mod Tests
use cere_ddc_sdk_js.Common.{ℕ, Bool, Option, String}

-- `RouterOperation`
pub data Operation : Type 0 where
  read_dag_node store_dag_node read_piece store_piece store_cns_record read_cns_record : Operation

-- `StorageNodeMode` of packages/blockchain/src/types.ts
pub data Mode : Type 0 where
  full storage cache : Mode

-- `RouterNode`: the parts of a node's configuration that the routing reads.
pub record RouterNode : Type 0 where
  pub mode : Mode
  pub ssl : Bool
  pub http_url : String
  pub grpc_url : String
  pub node_id : Option String
  pub priority : Option ℕ
