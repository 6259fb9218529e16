-- ===== src/Client/Account/Buckets.antt =====
-- The bucket ids that `createBucket` and `removeBuckets` of packages/ddc-client/src/DdcClient.ts return.
use cere_ddc_sdk_js.Common.{
  or_else, ℕ, zero, suc, ◌≡◌, refl, ap, ◌∙◌, Bool, true, false, Option, some, List, [], ◌∷◌, ◌++◌,
  map, String, Result, ok, All, keep, string_eq,
}
use cere_ddc_sdk_js.Blockchain.Transaction.{
  SendResult, Json, number, EventRecord, Report, Notice, reported, to_event, send,
}
use cere_ddc_sdk_js.Blockchain.Transaction.Outcome.{IsSilent, send-silent}
use cere_ddc_sdk_js.Blockchain.Customers
use cere_ddc_sdk_js.Transport.{head}
use cere_ddc_sdk_js.Blockchain.Customers.{
  Sendable, is_truthy, is_event, bucket_id_field, extract_bucket_ids, big_ints,
}
use cere_ddc_sdk_js.Client.Account.{
  AccountError, send_then, all_ids, ChainCalls, first_id, create_bucket, remove_buckets,
  remove_with,
}

-- The events of the method name the buckets in order; `other` events are none of the method.
pub data Names (method : String) : List EventRecord → List ℕ → Type 0 where
  nil : Names method [] []
  named :
      {e : EventRecord} {rest : List EventRecord} {ids : List ℕ} (n : ℕ)
      → is_event method (to_event e) ≡ true
      → bucket_id_field (to_event e) ≡ some (number n)
      → Names method rest ids
      → Names method (e ∷ rest) (n ∷ ids)
  skipped :
      {e : EventRecord} {rest : List EventRecord} {ids : List ℕ}
      → is_event method (to_event e) ≡ false
      → Names method rest ids
      → Names method (e ∷ rest) ids

-- The ids but for 0.
abbrev pub positive : List ℕ → List ℕ
positive [] = []
positive (zero ∷ ids) = positive ids
positive (suc n ∷ ids) = suc n ∷ positive ids

named_field :
    (n : ℕ) (fields : List (Option Json)) (ids : List ℕ)
    → big_ints (keep is_truthy fields) ≡ some (positive ids)
    → big_ints (keep is_truthy (some (number n) ∷ fields)) ≡ some (positive (n ∷ ids))
named_field zero fields ids h = h
named_field (suc n) fields ids h = rw (h) refl

kept_fields : String → List EventRecord → List (Option Json)
kept_fields method events = map bucket_id_field (keep (is_event method) (map to_event events))

extract-Names :
    (method : String) {events : List EventRecord} {ids : List ℕ}
    → Names method events ids
    → extract_bucket_ids method (map to_event events) ≡ some (positive ids)
unfolding extract_bucket_ids kept_fields
extract-Names method nil = refl
extract-Names method (named {e} {rest} {ids} n h k names) = rw (h) (
    ap (λ f. big_ints (keep is_truthy (f ∷ kept_fields method rest))) k
    ∙ named_field n (kept_fields method rest) ids (extract-Names method names))
extract-Names method (skipped h names) = rw (h) (extract-Names method names)

first_id-head : (ids : List ℕ) → first_id (some ids) ≡ ok (head ids)
first_id-head [] = refl
first_id-head (id ∷ rest) = refl

module _ {W Module : Type 0} (chain : ChainCalls W Module) where
  -- Reports that tell nothing, then a final one with the given events; later reports do not matter.
  abbrev pub IsFinal : List (Notice Module) → List EventRecord → Type 0
  IsFinal notices events =
      (before after : List (Notice Module)) × (r : Report Module) × (hash : String) × (notices
        ≡ before ++ reported r ∷ after)
      × All (IsSilent chain.find_meta_error) before
      × (r.finalized ≡ some hash)
      × (r.events ≡ events)

  send-IsFinal :
      (notices : List (Notice Module)) (events : List EventRecord)
      → IsFinal notices events
      → (hash : String) × (send chain.find_meta_error notices
          ≡ some (ok (record { events = map to_event events; tx_hash = hash })))
  unfolding send
  send-IsFinal notices events (before, after, r, hash, e, silent, final, same) = (
    hash,
    ap (send chain.find_meta_error) e
        ∙ send-silent chain.find_meta_error before (reported r ∷ after) silent
        ∙ final_first r hash after final
        ∙ ap (λ l. some (ok (record { events = map to_event l; tx_hash = hash }))) same,
  )
    where
      final_first :
          (r : Report Module) (hash : String) (after : List (Notice Module))
          → r.finalized ≡ some hash
          → send chain.find_meta_error (reported r ∷ after)
            ≡ some (ok (record { events = map to_event r.events; tx_hash = hash }))
      final_first r hash after h = rw (h) refl

  send_then-IsFinal :
      {A : Type 0} (next : SendResult → Result AccountError A) (v : Result AccountError A)
      (tx : Sendable) (w w' : W) (notices : List (Notice Module)) (events : List EventRecord)
      → chain.sign_and_send tx w ≡ (w', notices)
      → IsFinal notices events
      → ((hash : String) → next (record { events = map to_event events; tx_hash = hash }) ≡ v)
      → send_then chain next tx w ≡ (w', some v)
  send_then-IsFinal next v tx w w' notices events sent final value =
      let (hash, told) = send-IsFinal notices events final in
      rw (sent) (rw (told) (ap (λ x. (w', some x)) (value hash)))

  -- Where the transaction is finalized with events that name the created buckets by numbers: the id is
  -- the first of theirs that is not 0, and there is none if there is no such.
  pub create_bucket-positive :
      (cluster : String) (is_public : Option Bool) (w w' : W) (notices : List (Notice Module))
      (events : List EventRecord) (ids : List ℕ)
      → chain.sign_and_send
          (Customers.single (Customers.create_bucket cluster (or_else is_public false)))
          w
        ≡ (w', notices)
      → IsFinal notices events
      → Names "BucketCreated" events ids
      → create_bucket chain cluster is_public w ≡ (w', some (ok (head (positive ids))))
  unfolding create_bucket
  create_bucket-positive cluster is_public w w' notices events ids sent final names =
      send_then-IsFinal _ _ _ w w' notices events sent final
        (λ hash. ap first_id (extract-Names "BucketCreated" names) ∙ first_id-head (positive ids))

  -- Where the transaction is finalized with events that name the removed buckets by numbers: the ids
  -- are those of the buckets that were removed, in order, but for 0.
  pub remove_buckets-positive :
      (asked : List ℕ) (tx : Sendable) (w w' : W) (notices : List (Notice Module))
      (events : List EventRecord) (ids : List ℕ)
      → Customers.remove_buckets asked ≡ some tx
      → chain.sign_and_send tx w ≡ (w', notices)
      → IsFinal notices events
      → Names "BucketRemoved" events ids
      → remove_buckets chain asked w ≡ (w', some (ok (positive ids)))
  unfolding remove_buckets
  remove_buckets-positive asked tx w w' notices events ids made sent final names =
      ap (λ t. remove_with chain t w) made
      ∙ send_then-IsFinal _ _ tx w w' notices events sent final
          (λ hash. ap all_ids (extract-Names "BucketRemoved" names))
