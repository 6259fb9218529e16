-- ===== src/Transport/Timeout.antt =====
-- packages/ddc/src/transports/TimeoutInterceptor.ts: the signal of a call, which is aborted when the
-- headers do not come in time, or when the caller aborts it.
use cere_ddc_sdk_js.Common.{Bool, true, false, Option, none, some, List, or_option, if◌then◌else◌}
use cere_ddc_sdk_js.Nodes.{Thrown, plain_error}
use cere_ddc_sdk_js.Transport.{new_rpc_error, run_all}

-- What happens while a call is under way: the time is over, the promise of the headers settles, or the
-- caller aborts the signal of the options.
pub data Moment : Type 0 where
  time_over : Moment
  headers_settled : Moment
  caller_aborts : Moment

-- `timeoutHandle`, as whether the timer runs; whether `options.abort` is there; and the reason with
-- which the signal that the call gets was aborted.
pub record Controller : Type 0 where
  pub is_running : Bool
  pub has_caller_signal : Bool
  pub abort_reason : Option Thrown

-- `new RpcError('Request timed out', …)`
abbrev pub timeout_error : Thrown
timeout_error = new_rpc_error "Request timed out" (some "CANCELLED")

-- The reason of `abort()` without one: a `DOMException`.
abbrev pub default_reason : Thrown
default_reason = plain_error "AbortError"

-- `start`, and `composeSignal`
abbrev pub start : Bool → Controller
start has_caller_signal = record {
  is_running = true;
  has_caller_signal = has_caller_signal;
  abort_reason = none;
}

-- A signal is aborted once. The composed signal does not pass on the reason.
abbrev pub abort_call : Thrown → Controller → Controller
abort_call reason c = record c {
  abort_reason =
      or_option c.abort_reason (some (if c.has_caller_signal then default_reason else reason));
}

abbrev pub on_time : Bool → Controller → Controller
on_time true c = abort_call timeout_error (record c { is_running = false })
on_time false c = c

abbrev pub on_caller : Bool → Controller → Controller
on_caller true c = abort_call default_reason c
on_caller false c = c

unfoldable pub step : Moment → Controller → Controller
step time_over c = on_time c.is_running c
step headers_settled c = record c { is_running = false }
step caller_aborts c = on_caller c.has_caller_signal c

-- A call with a timeout, over what happens in the order of the list.
unfoldable pub run : Bool → List Moment → Controller
unfolding run_all step
run has_caller_signal moments = run_all step moments (start has_caller_signal)
