-- ===== src/Nodes.antt =====
-- packages/ddc/src/nodes: the node that an application talks to, and what goes wrong on the way.
-- This file has the errors: NodeError.ts, grpc/status.ts and the retryable codes of constants.ts.
pub mod Retry
pub mod Balanced
pub mod RoutedSource
pub mod Operations
pub mod Cluster
mod Tests
use cere_ddc_sdk_js.Common.{
  Bool, true, false, Option, none, some, List, [], ◌∷◌, map, String, includes, string_eq,
}

pub data GrpcStatus : Type 0 where
  s_ok cancelled unknown invalid_argument deadline_exceeded not_found already_exists : GrpcStatus
  permission_denied resource_exhausted failed_precondition aborted out_of_range : GrpcStatus
  unimplemented internal unavailable data_loss unauthenticated : GrpcStatus

-- `GrpcStatus[status]`
unfoldable pub status_name : GrpcStatus → String
status_name s_ok = "OK"
status_name cancelled = "CANCELLED"
status_name unknown = "UNKNOWN"
status_name invalid_argument = "INVALID_ARGUMENT"
status_name deadline_exceeded = "DEADLINE_EXCEEDED"
status_name not_found = "NOT_FOUND"
status_name already_exists = "ALREADY_EXISTS"
status_name permission_denied = "PERMISSION_DENIED"
status_name resource_exhausted = "RESOURCE_EXHAUSTED"
status_name failed_precondition = "FAILED_PRECONDITION"
status_name aborted = "ABORTED"
status_name out_of_range = "OUT_OF_RANGE"
status_name unimplemented = "UNIMPLEMENTED"
status_name internal = "INTERNAL"
status_name unavailable = "UNAVAILABLE"
status_name data_loss = "DATA_LOSS"
status_name unauthenticated = "UNAUTHENTICATED"

abbrev pub retryable_grpc_error_codes : List GrpcStatus
retryable_grpc_error_codes =
    unavailable ∷ deadline_exceeded ∷ resource_exhausted ∷ aborted ∷ internal ∷ unknown ∷ cancelled
    ∷ []

-- `RpcError` of the RPC library, as far as the SDK reads it.
pub record RpcError : Type 0 where
  pub message : String
  pub code : String
  pub method_name : Option String
  pub service_name : Option String

pub record NodeError : Type 0 where
  pub rpc : RpcError
  pub node_id : Option String
  pub correlation_id : Option String

-- What a promise is rejected with: `value` is anything that is not an `Error`.
pub data Thrown : Type 0 where
  rpc_error : RpcError → Thrown
  node_error : NodeError → Thrown
  plain_error : String → Thrown
  value : String → Thrown

-- `error instanceof Error`
abbrev pub is_error : Thrown → Bool
is_error (value _) = false
is_error _ = true

-- `error instanceof RpcError`; a `NodeError` is one, too.
abbrev pub as_rpc_error : Thrown → Option RpcError
as_rpc_error (rpc_error e) = some e
as_rpc_error (node_error e) = some e.rpc
as_rpc_error _ = none

-- `NodeError.fromRpcError`, and the two assignments after it.
unfoldable pub from_rpc_error : RpcError → NodeError
from_rpc_error error = record { rpc = error; node_id = none; correlation_id = none }

-- `RETRYABLE_GRPC_ERROR_CODES.map((status) => GrpcStatus[status]).includes(code)`
unfoldable pub is_retryable : String → Bool
unfolding status_name
is_retryable code = includes (map status_name retryable_grpc_error_codes) code
