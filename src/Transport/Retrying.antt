-- ===== src/Transport/Retrying.antt =====
-- When packages/ddc/src/transports/TimeoutInterceptor.ts aborts a call, and whether
-- packages/ddc/src/nodes/BalancedNode.ts tries it again.
use cere_ddc_sdk_js.Common.{◌≡◌, refl, Bool, true, false, none, some, List, [], ◌∷◌, if◌then◌else◌}
use cere_ddc_sdk_js.Nodes.{Thrown, RpcError, as_rpc_error, is_retryable}
use cere_ddc_sdk_js.Transport.{run_all}
use cere_ddc_sdk_js.Transport.Timeout.{
  Moment, time_over, headers_settled, caller_aborts, Controller, timeout_error, default_reason,
  step, run,
}

-- The time is over before the headers, and before the caller aborts.
abbrev pub IsTimedOut : Bool → List Moment → Type 0
IsTimedOut has_caller [] = ⊥
IsTimedOut has_caller (time_over ∷ rest) = Unit {0}
IsTimedOut has_caller (headers_settled ∷ rest) = ⊥
IsTimedOut true (caller_aborts ∷ rest) = ⊥
IsTimedOut false (caller_aborts ∷ rest) = IsTimedOut false rest

-- The balanced node tries a call again that fails with this.
abbrev pub IsRetried : Thrown → Type 0
IsRetried e = (rpc : RpcError) × (as_rpc_error e ≡ some rpc) × (is_retryable rpc.code ≡ true)

-- The reason of a call that timed out.
abbrev pub timeout_reason : Bool → Thrown
timeout_reason has_caller = if has_caller then default_reason else timeout_error

-- A stopped timer aborts nothing.
abbrev stopped : Controller
stopped = record { is_running = false; has_caller_signal = false; abort_reason = none }

run_all-stopped : (moments : List Moment) → (run_all step moments stopped).abort_reason ≡ none
unfolding run_all step
run_all-stopped [] = refl
run_all-stopped (time_over ∷ rest) = run_all-stopped rest
run_all-stopped (headers_settled ∷ rest) = run_all-stopped rest
run_all-stopped (caller_aborts ∷ rest) = run_all-stopped rest

-- A call without a signal in the options that gets its headers in time is not aborted.
pub in_time :
    (moments : List Moment) → ¬ IsTimedOut false moments → (run false moments).abort_reason ≡ none
unfolding run run_all step
in_time [] h = refl
in_time (time_over ∷ rest) h = absurd (h tt)
in_time (headers_settled ∷ rest) h = run_all-stopped rest
in_time (caller_aborts ∷ rest) h = in_time rest h
