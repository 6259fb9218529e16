-- ===== src/Transport/Tests.antt =====
-- Runs of the calls of packages/ddc/src/transports, with deferred values and streams that are what is
-- known of them.
use cere_ddc_sdk_js.Common.{
  ℕ, ◌≡◌, refl, true, false, Option, none, some, List, [], ◌∷◌, ◌++◌, String,
}
use cere_ddc_sdk_js.Nodes.{value}
use cere_ddc_sdk_js.Transport.{
  Settled, pending, resolved, rejected, first_settled, DeferredLib, get_status, Action, event, send,
  complete, on_headers, on_message, on_end,
}
use cere_ddc_sdk_js.Transport.Settling.{
  first_of, on_header_value, on_message_value, on_final_value, ok_status, trailer_value,
}
use cere_ddc_sdk_js.Transport.ClientStreaming.{run}
use cere_ddc_sdk_js.Transport.ClientStreaming.Settles.{run-first_of}
use cere_ddc_sdk_js.Transport.Duplex as Duplex
use cere_ddc_sdk_js.Transport.Duplex.{OutputLib, is_settled}
use cere_ddc_sdk_js.Transport.Unary as Unary
use cere_ddc_sdk_js.Transport.Unary.{Output}
use cere_ddc_sdk_js.Transport.Timeout as Timeout
use cere_ddc_sdk_js.Transport.Timeout.{Moment, time_over, headers_settled, timeout_error}

abbrev known : (A : Type 0) → DeferredLib A
known A = record {
  Deferred = Settled A;
  new = pending;
  resolve_pending = λ a d. first_settled d (resolved a);
  reject_pending = λ e d. first_settled d (rejected e);
  view = λ d. d;
  view-new = refl;
  view-resolve_pending = λ a d. refl;
  view-reject_pending = λ e d. refl;
}

abbrev closed_by :
    List ℕ → Settled (Unit {0}) → Settled (Unit {0}) → Option (List ℕ × Settled (Unit {0}))
closed_by xs pending f = some (xs, f)
closed_by xs (resolved u) f = none
closed_by xs (rejected e) f = none

abbrev added : List ℕ → Settled (Unit {0}) → ℕ → Option (List ℕ × Settled (Unit {0}))
added xs pending m = some (xs ++ m ∷ [], pending)
added xs (resolved u) m = none
added xs (rejected e) m = none

module _ (xs : List ℕ) where
  added_open :
      (m : ℕ) (f : Settled (Unit {0}))
      → is_settled f ≡ false
      → (t : List ℕ × Settled (Unit {0})) × (added xs f m ≡ some t) × (t ≡ (xs ++ m ∷ [], pending))
  added_open m pending h = (_, refl, refl)
  added_open m (resolved u) h = cc
  added_open m (rejected e) h = cc

  added_closed : (m : ℕ) (f : Settled (Unit {0})) → is_settled f ≡ true → added xs f m ≡ none
  added_closed m pending h = cc
  added_closed m (resolved u) h = refl
  added_closed m (rejected e) h = refl

  closed_by_open :
      (f g : Settled (Unit {0}))
      → is_settled f ≡ false
      → (t : List ℕ × Settled (Unit {0})) × (closed_by xs f g ≡ some t) × (t ≡ (xs, g))
  closed_by_open pending g h = (_, refl, refl)
  closed_by_open (resolved u) g h = cc
  closed_by_open (rejected e) g h = cc

abbrev streams : OutputLib ℕ
streams = record {
  Stream = List ℕ × Settled (Unit {0});
  new = ([], pending);
  closed = λ s. is_settled s.1;
  notify_message = λ m s. added s.0 s.1 m;
  notify_error = λ e s. closed_by s.0 s.1 (rejected e);
  notify_complete = λ s. closed_by s.0 s.1 (resolved tt);
  view = λ s. s;
  view-new = refl;
  closed_lem = λ s. refl;
  message_open = λ m s h. added_open s.0 m s.1 h;
  message_closed = λ m s h. added_closed s.0 m s.1 h;
  error_open = λ e s h. closed_by_open s.0 s.1 (rejected e) h;
  complete_open = λ s h. closed_by_open s.0 s.1 (resolved tt) h;
}

-- The headers of the tests are the values of every header.
abbrev all_values : List String → String → List String
all_values headers name = headers

-- Test: a status that is not OK, by its number.
get_status_code :
    get_status all_values ("14" ∷ []) ≡ some (record { code = some "UNAVAILABLE"; detail = "14" })
unfolding get_status
get_status_code = refl

-- Test: a number that is no status has no name.
get_status_unknown :
    get_status all_values ("99" ∷ []) ≡ some (record { code = none; detail = "99" })
unfolding get_status
get_status_unknown = refl

abbrev silent : List (Action (List String) ℕ ℕ)
silent = send 1 ∷ complete ∷ event (on_headers []) ∷ event (on_end 0 "" []) ∷ []

-- Test: the message of a call that ended well without one is pending.
silent_message : (run known all_values silent).message ≡ pending
unfolding run
silent_message = refl

run-first_of_example :
    ((run known all_values silent).header ≡ first_of (on_header_value all_values) silent)
    × ((run known all_values silent).message ≡ first_of on_message_value silent)
    × ((run known all_values silent).status ≡ first_of (on_final_value ok_status) silent)
    × ((run known all_values silent).trailer ≡ first_of (on_final_value trailer_value) silent)
run-first_of_example = run-first_of known all_values silent

abbrev echo : List (Action (List String) ℕ ℕ)
echo =
    send 1
    ∷ event (on_message 1)
    ∷ event (on_message 2)
    ∷ event (on_end 0 "" [])
    ∷ event (on_message 3)
    ∷ []

abbrev empty_output : Output (List String) ℕ
empty_output = record { status = 0; status_message = ""; headers = []; message = none }

-- Test: a call that is aborted with a text as reason has pending values.
aborted_with_text :
    (Unary.run {Meta = List String} {Out = ℕ} known "get" "FileApi"
      (Unary.on_abort (some (value "stop")) ∷ [])).header
    ≡ pending
unfolding Unary.run
aborted_with_text = refl

-- Test: a timer that is stopped by the headers does not abort the call.
headers_in_time : (Timeout.run false (headers_settled ∷ time_over ∷ [])).abort_reason ≡ none
unfolding Timeout.run
headers_in_time = refl
