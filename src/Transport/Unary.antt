-- ===== src/Transport/Unary.antt =====
-- `unary` of packages/ddc/src/transports/WebsocketTransport.ts: a call with one message in each
-- direction.
pub mod Settles
use cere_ddc_sdk_js.Common.{ℕ, zero, suc, Option, none, some, List, [], ◌∷◌, String}
use cere_ddc_sdk_js.Nodes.{Thrown, rpc_error, node_error, plain_error, value}
use cere_ddc_sdk_js.Transport.{
  Settled, pending, resolved, rejected, DeferredLib, RpcStatus, code_name, new_rpc_error,
  abort_error,
}

-- `grpc.UnaryOutput`
pub record Output (Meta Out : Type 0) : Type 0 where
  pub status : ℕ
  pub status_message : String
  pub headers : Meta
  pub message : Option Out

-- What the client reports, and the signal of the caller with its reason.
pub data UnaryEvent (Meta Out : Type 0) : Type 0 where
  on_end : Output Meta Out → UnaryEvent Meta Out
  on_abort : Option Thrown → UnaryEvent Meta Out

-- The promise `request`: what settled it first.
unfoldable pub request :
    {Meta Out : Type 0} → List (UnaryEvent Meta Out) → Settled (Output Meta Out)
request [] = pending
request (on_end output ∷ rest) = resolved output
request (on_abort reason ∷ rest) = rejected (abort_error reason)

-- `error.methodName = …; error.serviceName = …`. The assignments throw on a value that is no object;
-- then nothing is rejected.
abbrev pub with_method : String → String → Thrown → Option Thrown
with_method method service (rpc_error e) =
    some (rpc_error (record e { method_name = some method; service_name = some service }))
with_method method service (node_error e) = some (
    node_error (record e {
      rpc = record (e.rpc) { method_name = some method; service_name = some service };
    }))
with_method method service (plain_error e) = some (plain_error e)
with_method method service (value v) = none

module _ (Meta Out : Type 0) (lib : (A : Type 0) → DeferredLib A) where
  pub record Call : Type 0 where
    pub header : (lib Meta).Deferred
    pub message : (lib Out).Deferred
    pub status : (lib RpcStatus).Deferred
    pub trailer : (lib Meta).Deferred

module _ {Meta Out : Type 0} {lib : (A : Type 0) → DeferredLib A} where
  abbrev pub new_call : Call Meta Out lib
  new_call = record {
    header = (lib Meta).new;
    message = (lib Out).new;
    status = (lib RpcStatus).new;
    trailer = (lib Meta).new;
  }

  -- `catch`
  abbrev pub reject_all : Option Thrown → Call Meta Out lib → Call Meta Out lib
  reject_all none c = c
  reject_all (some error) c = record {
    header = (lib Meta).reject_pending error c.header;
    message = (lib Out).reject_pending error c.message;
    status = (lib RpcStatus).reject_pending error c.status;
    trailer = (lib Meta).reject_pending error c.trailer;
  }

  abbrev pub with_message : Option Out → Call Meta Out lib → Call Meta Out lib
  with_message none c = c
  with_message (some m) c = record c { message = (lib Out).resolve_pending m c.message }

  -- The start of `then`.
  abbrev pub with_output : Output Meta Out → Call Meta Out lib → Call Meta Out lib
  with_output output c = record c {
    header = (lib Meta).resolve_pending output.headers c.header;
    trailer = (lib Meta).resolve_pending output.headers c.trailer;
    status =
        (lib RpcStatus).resolve_pending
          (record { code = code_name output.status; detail = output.status_message }) c.status;
  }

  -- `output.status !== grpc.Code.OK`, where OK is 0.
  abbrev pub finished :
      String → String → ℕ → Output Meta Out → Call Meta Out lib → Call Meta Out lib
  finished method service zero output c = with_message output.message (with_output output c)
  finished method service (suc n) output c =
      reject_all
        (with_method method service (new_rpc_error output.status_message (code_name (suc n))))
        (with_output output c)

  abbrev pub settled_by :
      String → String → Settled (Output Meta Out) → Call Meta Out lib → Call Meta Out lib
  settled_by method service pending c = c
  settled_by method service (resolved output) c = finished method service output.status output c
  settled_by method service (rejected error) c = reject_all (with_method method service error) c

module _ {Meta Out : Type 0} (lib : (A : Type 0) → DeferredLib A) (method service : String) where
  -- A call over what is reported in the order of the list.
  unfoldable pub run : List (UnaryEvent Meta Out) → Call Meta Out lib
  unfolding request code_name
  run events = settled_by method service (request events) new_call
