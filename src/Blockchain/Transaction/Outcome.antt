-- ===== src/Blockchain/Transaction/Outcome.antt =====
-- What `send` of packages/blockchain/src/Blockchain.ts makes of the reports on a transaction.
use cere_ddc_sdk_js.Common.{
  ◌≡◌, ◌⊎◌, inl, inr, refl, ap, ◌∙◌, Option, none, some, List, [], ◌∷◌, ◌++◌, map, String, Result,
  ok, err, or_option, All,
}
use cere_ddc_sdk_js.Blockchain.Transaction.{
  DispatchError, Report, Notice, reported, failed, MetaError, SendResult, to_event, error_message,
  of_report, of_notice, send,
}

module _ {Module : Type 0} (find_meta_error : Module → MetaError) where
  -- A report that is not final and has no error.
  abbrev pub IsSilent : Notice Module → Type 0
  IsSilent (reported r) = (r.finalized ≡ none) × (r.dispatch_error ≡ none)
  IsSilent (failed e) = ⊥

  -- What the first notice that is not silent makes of the promise: a final report, a result, also
  -- where the dispatch failed; a failed dispatch that is not final, and a failed submission, an error.
  abbrev pub Tells : Notice Module → Result String SendResult → Type 0
  Tells (reported r) result =
      ((hash : String) × (r.finalized ≡ some hash)
        × (result ≡ ok (record { events = map to_event r.events; tx_hash = hash })))
      ⊎ ((e : DispatchError Module) × (r.finalized ≡ none)
          × (r.dispatch_error ≡ some e)
          × (result ≡ err (error_message find_meta_error e)))
  Tells (failed e) result = result ≡ err e

  silent_notice : (n : Notice Module) → IsSilent n → of_notice find_meta_error n ≡ none
  silent_notice (reported r) (h, k) = rw (h) (rw (k) refl)
  silent_notice (failed e) h = absurd h

  pub send-silent :
      (before rest : List (Notice Module))
      → All IsSilent before
      → send find_meta_error (before ++ rest) ≡ send find_meta_error rest
  unfolding send
  send-silent [] rest h = refl
  send-silent (n ∷ before) rest (h, k) =
      ap (λ o. or_option o (send find_meta_error (before ++ rest))) (silent_notice n h)
      ∙ send-silent before rest k

  report-cases :
      (r : Report Module) (finalized : Option String) (error : Option (DispatchError Module))
      → r.finalized ≡ finalized
      → r.dispatch_error ≡ error
      → IsSilent (reported r)
        ⊎ ((result : Result String SendResult) × (of_report find_meta_error r r.finalized
              ≡ some result)
            × Tells (reported r) result)
  report-cases r none none h k = inl (h, k)
  report-cases r none (some e) h k = inr (_, rw (h) (rw (k) refl), inr (e, h, k, refl))
  report-cases r (some hash) error h k = inr (_, rw (h) refl, inl (hash, h, refl))

  notice-cases :
      (n : Notice Module)
      → IsSilent n
        ⊎ ((result : Result String SendResult) × (of_notice find_meta_error n ≡ some result)
            × Tells n result)
  notice-cases (reported r) = report-cases r r.finalized r.dispatch_error refl refl
  notice-cases (failed e) = inr (err e, refl, refl)

  abbrev pub Outcome : List (Notice Module) → Type 0
  Outcome notices =
      (All IsSilent notices × (send find_meta_error notices ≡ none))
      ⊎ ((before after : List (Notice Module)) × (n : Notice Module) × (result : Result String
            SendResult)
          × (notices ≡ before ++ n ∷ after)
          × All IsSilent before
          × Tells n result
          × (send find_meta_error notices ≡ some result))

  outcome-told :
      (n : Notice Module) (rest : List (Notice Module)) (result : Result String SendResult)
      → of_notice find_meta_error n ≡ some result
      → send find_meta_error (n ∷ rest) ≡ some result
  unfolding send
  outcome-told n rest result h = ap (λ o. or_option o (send find_meta_error rest)) h

  Outcome-later :
      (n : Notice Module) (rest : List (Notice Module))
      → IsSilent n
      → Outcome rest
      → Outcome (n ∷ rest)
  Outcome-later n rest silent (inl (h, k)) =
      inl ((silent, h), send-silent (n ∷ []) rest (silent, tt) ∙ k)
  Outcome-later n rest silent (inr (before, after, m, result, e, h, t, k)) = inr (
    n ∷ before,
    after,
    m,
    result,
    ap (λ l. n ∷ l) e,
    (silent, h),
    t,
    send-silent (n ∷ []) rest (silent, tt) ∙ k,
  )

  -- Either no notice tells anything, and the promise stays pending; or the first one that does settles
  -- it, whatever comes later: with the events and the hash of a final report, also where the dispatch
  -- failed, or with the error of a dispatch or of a submission that failed.
  pub send-Outcome : (notices : List (Notice Module)) → Outcome notices
  unfolding send
  send-Outcome [] = inl (tt, refl)
  send-Outcome (n ∷ rest) = elim (notice-cases n) [
    | inl silent ↦ Outcome-later n rest silent (send-Outcome rest)
    | inr (result, e, t) ↦ inr ([], rest, n, result, refl, tt, t, outcome-told n rest result e)
  ]
