-- ===== src/Transport/ClientStreaming/Settles.antt =====
-- What the deferred values of `clientStreaming` of packages/ddc/src/transports/WebsocketTransport.ts
-- settle to, and when.
use cere_ddc_sdk_js.Common.{zero, suc, ◌≡◌, refl, sym, ap, ◌∙◌, Option, none, some, List, String}
use cere_ddc_sdk_js.Nodes.{Thrown}
use cere_ddc_sdk_js.Transport.{
  Settled, pending, first_settled, DeferredLib, RpcStatus, get_status, on_headers, on_message,
  on_end, on_abort, header_error, Action, event, send, complete,
}
use cere_ddc_sdk_js.Transport.ClientStreaming.{run, new_call, Call, with_headers, step}
use cere_ddc_sdk_js.Transport.Settling.{
  first_of, run_all-first_of, first_settled_pending, header_result, on_header_value,
  on_message_value, on_final_value, ok_status, trailer_value,
}

module _ {Meta In Out : Type 0} {lib : (A : Type 0) → DeferredLib A}
    (get : Meta → String → List String) where
  with_headers-value :
      (error : Option Thrown) (meta : Meta) (c : Call Meta In Out lib)
      → (lib Meta).view (with_headers get error meta c).header
        ≡ first_settled ((lib Meta).view c.header) (header_result error meta)
  with_headers-value none meta c = (lib Meta).view-resolve_pending meta c.header
  with_headers-value (some error) meta c = (lib Meta).view-reject_pending error c.header

  with_headers-message :
      (error : Option Thrown) (meta : Meta) (c : Call Meta In Out lib)
      → (lib Out).view (with_headers get error meta c).message ≡ (lib Out).view c.message
  with_headers-message none meta c = refl
  with_headers-message (some error) meta c = refl

  with_headers-status :
      (error : Option Thrown) (meta : Meta) (c : Call Meta In Out lib)
      → (lib RpcStatus).view (with_headers get error meta c).status ≡ (lib RpcStatus).view c.status
  with_headers-status none meta c = refl
  with_headers-status (some error) meta c = refl

  with_headers-trailer :
      (error : Option Thrown) (meta : Meta) (c : Call Meta In Out lib)
      → (lib Meta).view (with_headers get error meta c).trailer ≡ (lib Meta).view c.trailer
  with_headers-trailer none meta c = refl
  with_headers-trailer (some error) meta c = refl

  step-header :
      (a : Action Meta In Out) (c : Call Meta In Out lib)
      → (lib Meta).view (step get a c).header
        ≡ first_settled ((lib Meta).view c.header) (on_header_value get a)
  step-header (event (on_headers meta)) c =
      with_headers-value (header_error (get_status get meta)) meta c
  step-header (event (on_message m)) c = sym (first_settled_pending _)
  step-header (event (on_end zero detail trailers)) c = sym (first_settled_pending _)
  step-header (event (on_end (suc n) detail trailers)) c = (lib Meta).view-reject_pending _ c.header
  step-header (event (on_abort reason)) c = (lib Meta).view-reject_pending _ c.header
  step-header (send m) c = sym (first_settled_pending _)
  step-header complete c = sym (first_settled_pending _)

  step-message :
      (a : Action Meta In Out) (c : Call Meta In Out lib)
      → (lib Out).view (step get a c).message
        ≡ first_settled ((lib Out).view c.message) (on_message_value a)
  step-message (event (on_headers meta)) c =
      with_headers-message (header_error (get_status get meta)) meta c
      ∙ sym (first_settled_pending _)
  step-message (event (on_message m)) c = (lib Out).view-resolve_pending m c.message
  step-message (event (on_end zero detail trailers)) c = sym (first_settled_pending _)
  step-message (event (on_end (suc n) detail trailers)) c =
      (lib Out).view-reject_pending _ c.message
  step-message (event (on_abort reason)) c = (lib Out).view-reject_pending _ c.message
  step-message (send m) c = sym (first_settled_pending _)
  step-message complete c = sym (first_settled_pending _)

  step-status :
      (a : Action Meta In Out) (c : Call Meta In Out lib)
      → (lib RpcStatus).view (step get a c).status
        ≡ first_settled ((lib RpcStatus).view c.status) (on_final_value ok_status a)
  step-status (event (on_headers meta)) c =
      with_headers-status (header_error (get_status get meta)) meta c
      ∙ sym (first_settled_pending _)
  step-status (event (on_message m)) c = sym (first_settled_pending _)
  step-status (event (on_end zero detail trailers)) c =
      (lib RpcStatus).view-resolve_pending _ c.status
  step-status (event (on_end (suc n) detail trailers)) c =
      (lib RpcStatus).view-reject_pending _ c.status
  step-status (event (on_abort reason)) c = (lib RpcStatus).view-reject_pending _ c.status
  step-status (send m) c = sym (first_settled_pending _)
  step-status complete c = sym (first_settled_pending _)

  step-trailer :
      (a : Action Meta In Out) (c : Call Meta In Out lib)
      → (lib Meta).view (step get a c).trailer
        ≡ first_settled ((lib Meta).view c.trailer) (on_final_value trailer_value a)
  step-trailer (event (on_headers meta)) c =
      with_headers-trailer (header_error (get_status get meta)) meta c
      ∙ sym (first_settled_pending _)
  step-trailer (event (on_message m)) c = sym (first_settled_pending _)
  step-trailer (event (on_end zero detail trailers)) c = (lib Meta).view-resolve_pending _ c.trailer
  step-trailer (event (on_end (suc n) detail trailers)) c =
      (lib Meta).view-reject_pending _ c.trailer
  step-trailer (event (on_abort reason)) c = (lib Meta).view-reject_pending _ c.trailer
  step-trailer (send m) c = sym (first_settled_pending _)
  step-trailer complete c = sym (first_settled_pending _)

module _ {Meta In Out : Type 0} (lib : (A : Type 0) → DeferredLib A)
    (get : Meta → String → List String) (actions : List (Action Meta In Out)) where
  settled_at :
      {B : Type 0} (value : Call Meta In Out lib → Settled B)
      (effect : Action Meta In Out → Settled B)
      → ((a : Action Meta In Out) (c : Call Meta In Out lib)
          → value (step get a c) ≡ first_settled (value c) (effect a))
      → value new_call ≡ pending
      → value (run lib get actions) ≡ first_of effect actions
  unfolding run
  settled_at value effect law start =
      run_all-first_of (step {lib = lib} get) value effect law actions new_call
      ∙ ap (λ v. first_settled v (first_of effect actions)) start

  -- Whatever the client reports and in whatever order, each of the four values of a call is settled
  -- by the first thing that settles it: the headers, by the headers, or by their error status; the
  -- message, by the first message; the status and the trailer, by a good end; and each of them, by
  -- a bad end or by the caller's signal, with its error.
  pub run-first_of :
      ((lib Meta).view (run lib get actions).header ≡ first_of (on_header_value get) actions)
      × ((lib Out).view (run lib get actions).message ≡ first_of on_message_value actions)
      × ((lib RpcStatus).view (run lib get actions).status
          ≡ first_of (on_final_value ok_status) actions)
      × ((lib Meta).view (run lib get actions).trailer
          ≡ first_of (on_final_value trailer_value) actions)
  run-first_of = (
    settled_at (λ c. (lib Meta).view c.header) _ (step-header get) (lib Meta).view-new,
    settled_at (λ c. (lib Out).view c.message) _ (step-message get) (lib Out).view-new,
    settled_at (λ c. (lib RpcStatus).view c.status) _ (step-status get) (lib RpcStatus).view-new,
    settled_at (λ c. (lib Meta).view c.trailer) _ (step-trailer get) (lib Meta).view-new,
  )
