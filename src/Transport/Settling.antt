-- ===== src/Transport/Settling.antt =====
-- What settles the deferred values of a call of WebsocketTransport.ts in packages/ddc/src/transports.
use cere_ddc_sdk_js.Common.{
  ◌↔◌, ◌⊎◌, ◌≢◌, inl, inr, ℕ, zero, suc, ◌≡◌, refl, sym, ap, ◌∙◌, Option, none, some, List, [], ◌∷◌,
  String,
}
use cere_ddc_sdk_js.Nodes.{Thrown}
use cere_ddc_sdk_js.Transport.{
  Settled, pending, resolved, rejected, first_settled, RpcStatus, code_name, get_status,
  new_rpc_error, on_headers, on_message, on_end, on_abort, abort_error, header_error, Action, event,
  send, complete, run_all,
}
use cere_ddc_sdk_js.Transport.ClientStreaming.{step}

-- What the effects of a list come to, one after the other.
abbrev pub total : {A M : Type 0} → (M → M → M) → M → (A → M) → List A → M
total add none_of effect [] = none_of
total add none_of effect (a ∷ rest) = add (effect a) (total add none_of effect rest)

-- The first thing in the list that settles a value.
abbrev pub first_of : {A B : Type 0} → (A → Settled B) → List A → Settled B
first_of = total first_settled pending

first_settled_assoc :
    {B : Type 0} (a b c : Settled B)
    → first_settled (first_settled a b) c ≡ first_settled a (first_settled b c)
first_settled_assoc pending b c = refl
first_settled_assoc (resolved a) b c = refl
first_settled_assoc (rejected e) b c = refl

pub first_settled_pending : {B : Type 0} (a : Settled B) → first_settled a pending ≡ a
first_settled_pending pending = refl
first_settled_pending (resolved a) = refl
first_settled_pending (rejected e) = refl

-- A value to which each step adds its effect has at the end the effects of all steps.
pub run_all-total :
    {A M C : Type 0} (add : M → M → M) (unit : M)
    → ((x y z : M) → add (add x y) z ≡ add x (add y z))
    → ((x : M) → add x unit ≡ x)
    → (step : A → C → C) (value : C → M) (effect : A → M)
    → ((a : A) (c : C) → value (step a c) ≡ add (value c) (effect a))
    → (actions : List A) (c : C)
    → value (run_all step actions c) ≡ add (value c) (total add unit effect actions)
unfolding run_all
run_all-total add unit assoc right step value effect law [] c = sym (right (value c))
run_all-total add unit assoc right step value effect law (a ∷ rest) c =
    run_all-total add unit assoc right step value effect law rest (step a c)
    ∙ ap (λ v. add v (total add unit effect rest)) (law a c)
    ∙ assoc (value c) (effect a) (total add unit effect rest)

-- A deferred value that each step settles by its effect has at the end what the first effect gave it.
pub run_all-first_of :
    {A B C : Type 0} (step : A → C → C) (value : C → Settled B) (effect : A → Settled B)
    → ((a : A) (c : C) → value (step a c) ≡ first_settled (value c) (effect a))
    → (actions : List A) (c : C)
    → value (run_all step actions c) ≡ first_settled (value c) (first_of effect actions)
run_all-first_of = run_all-total first_settled pending first_settled_assoc first_settled_pending

-- How the end of a call settles what only an error settles.
abbrev pub end_error : {B : Type 0} → ℕ → String → Settled B
end_error zero detail = pending
end_error (suc n) detail = rejected (new_rpc_error detail (code_name (suc n)))

abbrev pub header_result : {Meta : Type 0} → Option Thrown → Meta → Settled Meta
header_result none meta = resolved meta
header_result (some error) meta = rejected error

module _ {Meta In Out : Type 0} (get : Meta → String → List String) where
  abbrev pub on_header_value : Action Meta In Out → Settled Meta
  on_header_value (event (on_headers meta)) =
      header_result (header_error (get_status get meta)) meta
  on_header_value (event (on_end n detail trailers)) = end_error n detail
  on_header_value (event (on_abort reason)) = rejected (abort_error reason)
  on_header_value _ = pending

module _ {Meta In Out : Type 0} where
  abbrev pub on_message_value : Action Meta In Out → Settled Out
  on_message_value (event (on_message m)) = resolved m
  on_message_value (event (on_end n detail trailers)) = end_error n detail
  on_message_value (event (on_abort reason)) = rejected (abort_error reason)
  on_message_value _ = pending

  -- The status and the trailer settle with the end of the call.
  abbrev pub on_final_value : {B : Type 0} → (String → Meta → B) → Action Meta In Out → Settled B
  on_final_value final (event (on_end zero detail trailers)) = resolved (final detail trailers)
  on_final_value final (event (on_end (suc n) detail trailers)) = end_error (suc n) detail
  on_final_value final (event (on_abort reason)) = rejected (abort_error reason)
  on_final_value final _ = pending

abbrev pub ok_status : {Meta : Type 0} → String → Meta → RpcStatus
ok_status detail trailers = record { code = code_name zero; detail = detail }

abbrev pub trailer_value : {Meta : Type 0} → String → Meta → Meta
trailer_value detail trailers = trailers

-- Nothing in the list settles the value.
abbrev pub AllPending : {A B : Type 0} → (A → Settled B) → List A → Type 0
AllPending effect [] = Unit {0}
AllPending effect (a ∷ rest) = (effect a ≡ pending) × AllPending effect rest

first_settled-pending :
    {B : Type 0} (a b : Settled B) → (first_settled a b ≡ pending) ↔ ((a ≡ pending) × (b ≡ pending))
first_settled-pending pending b = (λ h. (refl, h), λ h. h.1)
first_settled-pending (resolved a) b = (λ h. cc, λ h. h.0)
first_settled-pending (rejected e) b = (λ h. cc, λ h. h.0)

pub first_of-pending :
    {A B : Type 0} (effect : A → Settled B) (actions : List A)
    → (first_of effect actions ≡ pending) ↔ AllPending effect actions
first_of-pending effect [] = (λ h. tt, λ h. refl)
first_of-pending effect (a ∷ rest) =
    let split = first_settled-pending (effect a) (first_of effect rest) in
    let later = first_of-pending effect rest in
    (λ h. ((split.0 h).0, later.0 (split.0 h).1), λ h. split.1 (h.0, later.1 h.1))

-- The call ended, or the caller gave it up.
abbrev pub Finishes : {Meta In Out : Type 0} → Action Meta In Out → Type 0
Finishes (event (on_end n detail trailers)) = Unit {0}
Finishes (event (on_abort reason)) = Unit {0}
Finishes _ = ⊥

abbrev pub IsFinished : {Meta In Out : Type 0} → List (Action Meta In Out) → Type 0
IsFinished [] = ⊥
IsFinished (a ∷ rest) = Finishes a ⊎ IsFinished rest

module _ {Meta In Out B : Type 0} (final : String → Meta → B) where
  Finishes-settles : (a : Action Meta In Out) → Finishes a → on_final_value final a ≢ pending
  Finishes-settles (event (on_end zero detail trailers)) f h = cc
  Finishes-settles (event (on_end (suc n) detail trailers)) f h = cc
  Finishes-settles (event (on_abort reason)) f h = cc
  Finishes-settles (event (on_headers meta)) f h = absurd f
  Finishes-settles (event (on_message m)) f h = absurd f
  Finishes-settles (send m) f h = absurd f
  Finishes-settles complete f h = absurd f

  pub IsFinished-settles :
      (actions : List (Action Meta In Out))
      → IsFinished actions
      → first_of (on_final_value final) actions ≢ pending
  IsFinished-settles [] f h = absurd f
  IsFinished-settles (a ∷ rest) (inl f) h =
      Finishes-settles a f ((first_settled-pending (on_final_value final a) _).0 h).0
  IsFinished-settles (a ∷ rest) (inr f) h =
      IsFinished-settles rest f ((first_settled-pending (on_final_value final a) _).0 h).1

  -- A call that did not finish has a pending status.
  pub IsFinished-cases :
      (actions : List (Action Meta In Out))
      → IsFinished actions ⊎ (first_of (on_final_value final) actions ≡ pending)
  IsFinished-cases [] = inr refl
  IsFinished-cases (event (on_end n detail trailers) ∷ rest) = inl (inl tt)
  IsFinished-cases (event (on_abort reason) ∷ rest) = inl (inl tt)
  IsFinished-cases (event (on_headers meta) ∷ rest) = elim (IsFinished-cases rest) [
    | inl f ↦ inl (inr f)
    | inr h ↦ inr h
  ]
  IsFinished-cases (event (on_message m) ∷ rest) = elim (IsFinished-cases rest) [
    | inl f ↦ inl (inr f)
    | inr h ↦ inr h
  ]
  IsFinished-cases (send m ∷ rest) = elim (IsFinished-cases rest) [
    | inl f ↦ inl (inr f)
    | inr h ↦ inr h
  ]
  IsFinished-cases (complete ∷ rest) = elim (IsFinished-cases rest) [
    | inl f ↦ inl (inr f)
    | inr h ↦ inr h
  ]
