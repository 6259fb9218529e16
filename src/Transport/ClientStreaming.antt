-- ===== src/Transport/ClientStreaming.antt =====
-- `clientStreaming` of packages/ddc/src/transports/WebsocketTransport.ts: a call that sends messages and
-- gets one.
pub mod Settles
use cere_ddc_sdk_js.Common.{ℕ, zero, suc, Option, none, some, List, [], ◌∷◌, String, string_eq}
use cere_ddc_sdk_js.Nodes.{Thrown}
use cere_ddc_sdk_js.Transport.{
  DeferredLib, RpcStatus, code_name, get_status, new_rpc_error, Event, on_headers, on_message,
  on_end, on_abort, abort_error, header_error, Action, event, send, complete, Command, run_all,
  send_message, finish_send, close,
}

module _ (Meta In Out : Type 0) (lib : (A : Type 0) → DeferredLib A) where
  pub record Call : Type 0 where
    pub header : (lib Meta).Deferred
    pub message : (lib Out).Deferred
    pub status : (lib RpcStatus).Deferred
    pub trailer : (lib Meta).Deferred
    pub commands : List (Command In)

module _ {Meta In Out : Type 0} {lib : (A : Type 0) → DeferredLib A} where
  abbrev pub new_call : Call Meta In Out lib
  new_call = record {
    header = (lib Meta).new;
    message = (lib Out).new;
    status = (lib RpcStatus).new;
    trailer = (lib Meta).new;
    commands = [];
  }

  -- `emitError`
  abbrev pub emit_error : Thrown → Call Meta In Out lib → Call Meta In Out lib
  emit_error error c = record c {
    header = (lib Meta).reject_pending error c.header;
    message = (lib Out).reject_pending error c.message;
    status = (lib RpcStatus).reject_pending error c.status;
    trailer = (lib Meta).reject_pending error c.trailer;
  }

  abbrev pub command : Command In → Call Meta In Out lib → Call Meta In Out lib
  command k c = record c { commands = k ∷ c.commands }

module _ {Meta In Out : Type 0} {lib : (A : Type 0) → DeferredLib A}
    (get : Meta → String → List String) where
  abbrev pub with_headers : Option Thrown → Meta → Call Meta In Out lib → Call Meta In Out lib
  with_headers none meta c = record c { header = (lib Meta).resolve_pending meta c.header }
  with_headers (some error) meta c = record c { header = (lib Meta).reject_pending error c.header }

  -- `client.onEnd`; `grpc.Code.OK` is 0.
  abbrev pub ended : ℕ → String → Meta → Call Meta In Out lib → Call Meta In Out lib
  ended zero detail trailers c = record c {
    status =
        (lib RpcStatus).resolve_pending (record { code = code_name zero; detail = detail })
          c.status;
    trailer = (lib Meta).resolve_pending trailers c.trailer;
  }
  ended (suc n) detail trailers c = emit_error (new_rpc_error detail (code_name (suc n))) c

  abbrev pub on_event : Event Meta Out → Call Meta In Out lib → Call Meta In Out lib
  on_event (on_headers meta) c = with_headers (header_error (get_status get meta)) meta c
  on_event (on_message m) c = record c { message = (lib Out).resolve_pending m c.message }
  on_event (on_end n detail trailers) c = ended n detail trailers c
  on_event (on_abort reason) c = command close (emit_error (abort_error reason) c)

  abbrev pub step : Action Meta In Out → Call Meta In Out lib → Call Meta In Out lib
  step (event e) c = on_event e c
  step (send m) c = command (send_message m) c
  step complete c = command finish_send c

module _ {Meta In Out : Type 0} (lib : (A : Type 0) → DeferredLib A)
    (get : Meta → String → List String) where
  -- A call whose events and sends happen in the order of the list.
  unfoldable pub run : List (Action Meta In Out) → Call Meta In Out lib
  unfolding code_name get_status run_all
  run actions = run_all (step get) actions new_call
