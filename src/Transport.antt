-- ===== src/Transport.antt =====
-- packages/ddc/src/transports: RPC calls over a web socket (WebsocketTransport.ts) and the timeout of a
-- call (TimeoutInterceptor.ts). This file has what the calls share: the events of a gRPC client, the
-- status in its headers, and the deferred values of the RPC library, which are an interface.
pub mod ClientStreaming
pub mod Duplex
pub mod Unary
pub mod Timeout
pub mod Settling
pub mod Retrying
mod Tests
use cere_ddc_sdk_js.Common.{
  String, number_of, ℕ, zero, suc, ◌+◌, ◌-◌, ◌*◌, ◌≡◌, Bool, true, false, ◌&&◌, Option, none, some,
  List, [], ◌∷◌, map, leb, ltb, ◌==◌, if◌then◌else◌, or_else, get_elem?, string_eq, ◌===◌,
}
use cere_ddc_sdk_js.Nodes.{
  Thrown, rpc_error, plain_error, RpcError, GrpcStatus, s_ok, cancelled, unknown, invalid_argument,
  deadline_exceeded, not_found, already_exists, permission_denied, resource_exhausted,
  failed_precondition, aborted, out_of_range, unimplemented, internal, unavailable, data_loss,
  unauthenticated, status_name,
}

-- What is known of a deferred value.
pub data Settled (A : Type 0) : Type 0 where
  pending : Settled A
  resolved : A → Settled A
  rejected : Thrown → Settled A

-- The first of two that is not pending.
abbrev pub first_settled : {A : Type 0} → Settled A → Settled A → Settled A
first_settled pending later = later
first_settled (resolved a) later = resolved a
first_settled (rejected e) later = rejected e

-- `Deferred` of the RPC library: it is settled at most once, and what comes later is ignored.
pub record DeferredLib (A : Type 0) : Type 1 where
  pub Deferred : Type 0
  pub new : Deferred
  pub resolve_pending : A → Deferred → Deferred
  pub reject_pending : Thrown → Deferred → Deferred
  pub view : Deferred → Settled A
  pub view-new : view new ≡ pending
  pub view-resolve_pending :
      (a : A) (d : Deferred) → view (resolve_pending a d) ≡ first_settled (view d) (resolved a)
  pub view-reject_pending :
      (e : Thrown) (d : Deferred) → view (reject_pending e d) ≡ first_settled (view d) (rejected e)

-- `RpcStatus`
pub record RpcStatus : Type 0 where
  pub code : Option String
  pub detail : String

abbrev pub grpc_statuses : List GrpcStatus
grpc_statuses =
    s_ok ∷ cancelled ∷ unknown ∷ invalid_argument ∷ deadline_exceeded ∷ not_found ∷ already_exists
    ∷ permission_denied ∷ resource_exhausted ∷ failed_precondition ∷ aborted ∷ out_of_range
    ∷ unimplemented ∷ internal ∷ unavailable ∷ data_loss ∷ unauthenticated ∷ []

-- `GrpcStatus[number]`
unfoldable pub code_name : ℕ → Option String
unfolding status_name
code_name number = get_elem? (map status_name grpc_statuses) number

-- `GrpcStatus[Number(statusCode)]`
abbrev pub code_of_number : Option ℕ → Option String
code_of_number none = none
code_of_number (some n) = code_name n

abbrev pub status_of : Option String → Option String → Option RpcStatus
status_of none message = none
status_of (some status_code) message =
    if status_code === ""
    then none
    else some
        (record { code = code_of_number (number_of status_code); detail = or_else message "" })

-- `const [first] = values`
abbrev pub head : {A : Type 0} → List A → Option A
head [] = none
head (x ∷ xs) = some x

-- `getStatus`; `get` has the values of a header, none if it is missing.
unfoldable pub get_status :
    {Meta : Type 0} → (Meta → String → List String) → Meta → Option RpcStatus
unfolding code_name number_of
get_status get headers =
    status_of (head (get headers "grpc-status")) (head (get headers "grpc-message"))

-- `new RpcError(message, code)`; the library has the code UNKNOWN where there is none.
abbrev pub new_rpc_error : String → Option String → Thrown
new_rpc_error message code = rpc_error (record {
  message = message;
  code = or_else code "UNKNOWN";
  method_name = none;
  service_name = none;
})

-- What the gRPC client of a call reports, and the signal of the caller with its reason.
pub data Event (Meta Msg : Type 0) : Type 0 where
  on_headers : Meta → Event Meta Msg
  on_message : Msg → Event Meta Msg
  on_end : ℕ → String → Meta → Event Meta Msg
  on_abort : Option Thrown → Event Meta Msg

-- `options.abort.reason || new RpcError('Canceled by client', …)`
abbrev pub abort_error : Option Thrown → Thrown
abort_error reason = or_else reason (new_rpc_error "Canceled by client" (some "CANCELLED"))

-- `status && status.code !== GrpcStatus[GrpcStatus.OK]`, with the error that is made of it.
abbrev pub failed_code : RpcStatus → Option String → Option Thrown
failed_code status none = some (new_rpc_error status.detail none)
failed_code status (some code) =
    if code === "OK" then none else some (new_rpc_error status.detail (some code))

abbrev pub header_error : Option RpcStatus → Option Thrown
header_error none = none
header_error (some status) = failed_code status status.code

-- What happens to a call: the client reports an event, or the caller sends a message or completes.
pub data Action (Meta In Out : Type 0) : Type 0 where
  event : Event Meta Out → Action Meta In Out
  send : In → Action Meta In Out
  complete : Action Meta In Out

-- What the call asks of the gRPC client.
pub data Command (In : Type 0) : Type 0 where
  send_message : In → Command In
  finish_send : Command In
  close : Command In

-- What happens to a call in the order of the list.
unfoldable pub run_all : {A C : Type 0} → (A → C → C) → List A → C → C
run_all step [] c = c
run_all step (a ∷ rest) c = run_all step rest (step a c)
