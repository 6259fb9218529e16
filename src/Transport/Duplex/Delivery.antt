-- ===== src/Transport/Duplex/Delivery.antt =====
-- What an output stream of `duplex` of packages/ddc/src/transports/WebsocketTransport.ts is to deliver.
use cere_ddc_sdk_js.Common.{
  zero, suc, ◌≡◌, ◌++◌, refl, sym, ap, ◌∙◌, Bool-cases, inl, inr, true, false, List, [], ◌∷◌,
  or_else, append-nil, append_assoc,
}
use cere_ddc_sdk_js.Transport.{
  Settled, pending, resolved, rejected, code_name, new_rpc_error, on_headers, on_message, on_end,
  on_abort, abort_error, Action, event, send, complete,
}
use cere_ddc_sdk_js.Transport.Settling.{total}
use cere_ddc_sdk_js.Transport.Duplex.{is_settled, OutputLib}

-- What a stream delivered, and how it closed.
abbrev pub Delivery : Type 0 → Type 0
Delivery Out = List Out × Settled (Unit {0})

-- The messages up to the first end or signal; it closes the stream.
abbrev pub delivered : {Meta In Out : Type 0} → List (Action Meta In Out) → Delivery Out
delivered [] = ([], pending)
delivered (event (on_message m) ∷ rest) = let later = delivered rest in (m ∷ later.0, later.1)
delivered (event (on_end zero detail trailers) ∷ rest) = ([], resolved tt)
delivered (event (on_end (suc n) detail trailers) ∷ rest) =
    ([], rejected (new_rpc_error detail (code_name (suc n))))
delivered (event (on_abort reason) ∷ rest) = ([], rejected (abort_error reason))
delivered (event (on_headers meta) ∷ rest) = delivered rest
delivered (send m ∷ rest) = delivered rest
delivered (complete ∷ rest) = delivered rest

-- One delivery after another; a closed stream delivers no more.
abbrev pub and_after : {Out : Type 0} → Delivery Out → Delivery Out → Delivery Out
and_after (xs, pending) (ys, f) = (xs ++ ys, f)
and_after (xs, resolved u) later = (xs, resolved u)
and_after (xs, rejected e) later = (xs, rejected e)

module _ {Out : Type 0} where
  pub and_after_assoc :
      (x y z : Delivery Out) → and_after (and_after x y) z ≡ and_after x (and_after y z)
  and_after_assoc (xs, pending) (ys, pending) (zs, f) = ap (λ l. (l, f)) (append_assoc xs ys zs)
  and_after_assoc (xs, pending) (ys, resolved u) z = refl
  and_after_assoc (xs, pending) (ys, rejected e) z = refl
  and_after_assoc (xs, resolved u) y z = refl
  and_after_assoc (xs, rejected e) y z = refl

  pub and_after_nil : (x : Delivery Out) → and_after x ([], pending) ≡ x
  and_after_nil (xs, pending) = ap (λ l. (l, pending)) (append-nil xs)
  and_after_nil (xs, resolved u) = refl
  and_after_nil (xs, rejected e) = refl

  pub and_after_closed : (x y : Delivery Out) → is_settled x.1 ≡ true → and_after x y ≡ x
  and_after_closed (xs, pending) y h = cc
  and_after_closed (xs, resolved u) y h = refl
  and_after_closed (xs, rejected e) y h = refl

  pub and_after_open :
      (x y : Delivery Out) → is_settled x.1 ≡ false → and_after x y ≡ (x.0 ++ y.0, y.1)
  and_after_open (xs, pending) y h = refl
  and_after_open (xs, resolved u) y h = cc
  and_after_open (xs, rejected e) y h = cc

  module _ (out : OutputLib Out) where
    pub notify_message-view :
        (m : Out) (s : out.Stream)
        → out.view (or_else (out.notify_message m s) s) ≡ and_after (out.view s) (m ∷ [], pending)
    notify_message-view m s = elim (Bool-cases (out.closed s)) [
      | inl h ↦
          rw (out.message_closed m s h)
            (sym (and_after_closed (out.view s) (m ∷ [], pending) (sym (out.closed_lem s) ∙ h)))
      | inr h ↦
          let (t, e, v) = out.message_open m s h in
          rw (e)
            (v ∙ sym (and_after_open (out.view s) (m ∷ [], pending) (sym (out.closed_lem s) ∙ h)))
    ]

module _ {Meta In Out : Type 0} where
  -- What an action adds to the delivery.
  abbrev pub delivery_of : Action Meta In Out → Delivery Out
  delivery_of (event (on_message m)) = (m ∷ [], pending)
  delivery_of (event (on_end zero detail trailers)) = ([], resolved tt)
  delivery_of (event (on_end (suc n) detail trailers)) =
      ([], rejected (new_rpc_error detail (code_name (suc n))))
  delivery_of (event (on_abort reason)) = ([], rejected (abort_error reason))
  delivery_of _ = ([], pending)

  pub total-delivered :
      (actions : List (Action Meta In Out))
      → total and_after ([], pending) delivery_of actions ≡ delivered actions
  total-delivered [] = refl
  total-delivered (event (on_message m) ∷ rest) =
      ap (λ (d : Delivery Out). (m ∷ d.0, d.1)) (total-delivered rest)
  total-delivered (event (on_end zero detail trailers) ∷ rest) = refl
  total-delivered (event (on_end (suc n) detail trailers) ∷ rest) = refl
  total-delivered (event (on_abort reason) ∷ rest) = refl
  total-delivered (event (on_headers meta) ∷ rest) = total-delivered rest
  total-delivered (send m ∷ rest) = total-delivered rest
  total-delivered (complete ∷ rest) = total-delivered rest
