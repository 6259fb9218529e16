-- ===== src/Transport/Duplex.antt =====
-- `duplex` of packages/ddc/src/transports/WebsocketTransport.ts: a call that sends and gets messages. The
-- output stream is one of the RPC library, which is an interface.
pub mod Delivery
pub mod Delivers
use cere_ddc_sdk_js.Common.{
  ℕ, zero, suc, ◌≡◌, ◌++◌, Bool, true, false, Option, none, some, List, [], ◌∷◌, String, or_else,
  if◌then◌else◌,
}
use cere_ddc_sdk_js.Nodes.{Thrown}
use cere_ddc_sdk_js.Transport.{
  Settled, pending, resolved, rejected, DeferredLib, RpcStatus, code_name, get_status,
  new_rpc_error, Event, on_headers, on_message, on_end, on_abort, abort_error, header_error, Action,
  event, send, complete, Command, send_message, finish_send, close, run_all,
}

abbrev pub is_settled : {A : Type 0} → Settled A → Bool
is_settled pending = false
is_settled (resolved a) = true
is_settled (rejected e) = true

-- `RpcOutputStreamController`: its messages, and whether it completed or failed. To notify a closed
-- stream throws, which is none.
pub record OutputLib (Out : Type 0) : Type 1 where
  pub Stream : Type 0
  pub new : Stream
  pub closed : Stream → Bool
  pub notify_message : Out → Stream → Option Stream
  pub notify_error : Thrown → Stream → Option Stream
  pub notify_complete : Stream → Option Stream
  pub view : Stream → List Out × Settled (Unit {0})
  pub view-new : view new ≡ ([], pending)
  pub closed_lem : (s : Stream) → closed s ≡ is_settled (view s).1
  pub message_open :
      (m : Out) (s : Stream)
      → closed s ≡ false
      → (t : Stream) × (notify_message m s ≡ some t) × (view t ≡ ((view s).0 ++ m ∷ [], pending))
  pub message_closed : (m : Out) (s : Stream) → closed s ≡ true → notify_message m s ≡ none
  pub error_open :
      (e : Thrown) (s : Stream)
      → closed s ≡ false
      → (t : Stream) × (notify_error e s ≡ some t) × (view t ≡ ((view s).0, rejected e))
  pub complete_open :
      (s : Stream)
      → closed s ≡ false
      → (t : Stream) × (notify_complete s ≡ some t) × (view t ≡ ((view s).0, resolved tt))

module _ (Meta In Out : Type 0) (lib : (A : Type 0) → DeferredLib A) (out : OutputLib Out) where
  pub record Call : Type 0 where
    pub header : (lib Meta).Deferred
    pub status : (lib RpcStatus).Deferred
    pub trailer : (lib Meta).Deferred
    pub out_stream : out.Stream
    pub commands : List (Command In)

module _ {Meta In Out : Type 0} {lib : (A : Type 0) → DeferredLib A} {out : OutputLib Out} where
  abbrev pub new_call : Call Meta In Out lib out
  new_call = record {
    header = (lib Meta).new;
    status = (lib RpcStatus).new;
    trailer = (lib Meta).new;
    out_stream = out.new;
    commands = [];
  }

  -- A callback that throws has no other effect.
  abbrev pub notified : Option (out.Stream) → Call Meta In Out lib out → Call Meta In Out lib out
  notified s c = record c { out_stream = or_else s c.out_stream }

  -- `if (!outStream.closed)`
  abbrev pub unless_closed :
      Option (out.Stream) → Call Meta In Out lib out → Call Meta In Out lib out
  unless_closed s c = if out.closed c.out_stream then c else notified s c

  abbrev pub reject_values : Thrown → Call Meta In Out lib out → Call Meta In Out lib out
  reject_values error c = record c {
    header = (lib Meta).reject_pending error c.header;
    status = (lib RpcStatus).reject_pending error c.status;
    trailer = (lib Meta).reject_pending error c.trailer;
  }

  -- `emitError`
  abbrev pub emit_error : Thrown → Call Meta In Out lib out → Call Meta In Out lib out
  emit_error error c = unless_closed (out.notify_error error c.out_stream) (reject_values error c)

  abbrev pub resolve_values : String → Meta → Call Meta In Out lib out → Call Meta In Out lib out
  resolve_values detail trailers c = record c {
    status =
        (lib RpcStatus).resolve_pending (record { code = code_name zero; detail = detail })
          c.status;
    trailer = (lib Meta).resolve_pending trailers c.trailer;
  }

  abbrev pub command : Command In → Call Meta In Out lib out → Call Meta In Out lib out
  command k c = record c { commands = k ∷ c.commands }

  -- `complete` of the input stream: only while the status is pending.
  abbrev pub completed : Settled RpcStatus → Call Meta In Out lib out → Call Meta In Out lib out
  completed pending c = command finish_send c
  completed _ c = c

module _ {Meta In Out : Type 0} {lib : (A : Type 0) → DeferredLib A} {out : OutputLib Out}
    (get : Meta → String → List String) where
  abbrev pub with_headers :
      Option Thrown → Meta → Call Meta In Out lib out → Call Meta In Out lib out
  with_headers none meta c = record c { header = (lib Meta).resolve_pending meta c.header }
  with_headers (some error) meta c = record c { header = (lib Meta).reject_pending error c.header }

  -- `client.onEnd`; `grpc.Code.OK` is 0.
  abbrev pub ended : ℕ → String → Meta → Call Meta In Out lib out → Call Meta In Out lib out
  ended zero detail trailers c =
      unless_closed (out.notify_complete c.out_stream) (resolve_values detail trailers c)
  ended (suc n) detail trailers c = emit_error (new_rpc_error detail (code_name (suc n))) c

  abbrev pub on_event : Event Meta Out → Call Meta In Out lib out → Call Meta In Out lib out
  on_event (on_headers meta) c = with_headers (header_error (get_status get meta)) meta c
  on_event (on_message m) c = notified (out.notify_message m c.out_stream) c
  on_event (on_end n detail trailers) c = ended n detail trailers c
  on_event (on_abort reason) c = command close (emit_error (abort_error reason) c)

  abbrev pub step : Action Meta In Out → Call Meta In Out lib out → Call Meta In Out lib out
  step (event e) c = on_event e c
  step (send m) c = command (send_message m) c
  step complete c = completed ((lib RpcStatus).view c.status) c

module _ {Meta In Out : Type 0} (lib : (A : Type 0) → DeferredLib A) (out : OutputLib Out)
    (get : Meta → String → List String) where
  -- A call whose events and sends happen in the order of the list.
  unfoldable pub run : List (Action Meta In Out) → Call Meta In Out lib out
  unfolding code_name get_status run_all
  run actions = run_all (step get) actions new_call
