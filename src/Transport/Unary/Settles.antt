-- ===== src/Transport/Unary/Settles.antt =====
-- Which reports of the client settle a call of `unary` of
-- packages/ddc/src/transports/WebsocketTransport.ts.
use cere_ddc_sdk_js.Common.{
  ◌↔◌, ◌≢◌, suc, zero, or_else, ℕ, zero, suc, ◌≢◌, ◌↔◌, Option, none, some, List, [], ◌∷◌, String,
}
use cere_ddc_sdk_js.Nodes.{Thrown, rpc_error, value}
use cere_ddc_sdk_js.Transport.{
  Settled, pending, resolved, rejected, DeferredLib, RpcStatus, code_name, abort_error,
}
use cere_ddc_sdk_js.Transport.Unary.{
  run, finished, with_output, with_message, reject_all, new_call, with_method, request, Call,
  Output, UnaryEvent, on_end, on_abort, request, with_method, Call, new_call, reject_all,
  with_message, with_output, finished, run,
}

-- A value that can be given the name of the method.
abbrev pub IsObject : Thrown → Type 0
IsObject (value v) = ⊥
IsObject _ = Unit {0}

abbrev pub HasMessage : {Out : Type 0} → Option Out → Type 0
HasMessage none = ⊥
HasMessage (some m) = Unit {0}

abbrev pub EndAnswers : {Out : Type 0} → ℕ → Option Out → Type 0
EndAnswers zero message = HasMessage message
EndAnswers (suc n) message = Unit {0}

-- The first report is a bad end, a good end with a message, or a signal whose reason is an object or
-- missing.
abbrev pub IsAnswered : {Meta Out : Type 0} → List (UnaryEvent Meta Out) → Type 0
IsAnswered [] = ⊥
IsAnswered (on_end output ∷ rest) = EndAnswers output.status output.message
IsAnswered (on_abort reason ∷ rest) = IsObject (abort_error reason)

-- What is known of the four values of a call.
pub record Values (Meta Out : Type 0) : Type 0 where
  pub header : Settled Meta
  pub message : Settled Out
  pub status : Settled RpcStatus
  pub trailer : Settled Meta

-- No value is pending.
abbrev pub IsSettled : {Meta Out : Type 0} → Values Meta Out → Type 0
IsSettled v =
    (v.header ≢ pending) × (v.message ≢ pending) × (v.status ≢ pending) × (v.trailer ≢ pending)

abbrev message_of : {Out : Type 0} → Option Out → Settled Out
message_of none = pending
message_of (some m) = resolved m

module _ {Meta Out : Type 0} where
  abbrev all_pending : Values Meta Out
  all_pending = record { header = pending; message = pending; status = pending; trailer = pending }

  abbrev all_rejected : Option Thrown → Values Meta Out
  all_rejected none = all_pending
  all_rejected (some e) = record {
    header = rejected e;
    message = rejected e;
    status = rejected e;
    trailer = rejected e;
  }

  abbrev got : Output Meta Out → Settled Out → Values Meta Out
  got output message = record {
    header = resolved output.headers;
    message = message;
    status = resolved (record { code = code_name output.status; detail = output.status_message });
    trailer = resolved output.headers;
  }

module _ {Meta Out : Type 0} (method service : String) where
  -- The error of a bad end, with the method.
  abbrev bad_end : ℕ → Output Meta Out → Thrown
  bad_end n output = rpc_error (record {
    message = output.status_message;
    code = or_else (code_name (suc n)) "UNKNOWN";
    method_name = some method;
    service_name = some service;
  })

  abbrev end_message : ℕ → Output Meta Out → Settled Out
  end_message zero output = message_of output.message
  end_message (suc n) output = rejected (bad_end n output)

  abbrev expected : List (UnaryEvent Meta Out) → Values Meta Out
  expected [] = all_pending
  expected (on_end output ∷ rest) = got output (end_message output.status output)
  expected (on_abort reason ∷ rest) = all_rejected (with_method method service (abort_error reason))

module _ {Meta Out : Type 0} (lib : (A : Type 0) → DeferredLib A) (method service : String) where
  abbrev pub values : Call Meta Out lib → Values Meta Out
  values c = record {
    header = (lib Meta).view c.header;
    message = (lib Out).view c.message;
    status = (lib RpcStatus).view c.status;
    trailer = (lib Meta).view c.trailer;
  }
