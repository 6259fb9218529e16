-- ===== src/Blockchain/Customers.antt =====
-- packages/blockchain/src/DDCCustomersPallet.ts: the transactions of customers, and what the SDK reads
-- of the chain's answers and events.
use cere_ddc_sdk_js.Common.{
  ℕ, zero, suc, Bool, true, false, not, ◌&&◌, Option, none, some, List, [], ◌∷◌, map, String, keep,
  lookup, string_eq, ◌===◌, big_int_of,
}
use cere_ddc_sdk_js.Blockchain.{Bucket}
use cere_ddc_sdk_js.Blockchain.Transaction.{Json, null, number, text, other, Event}

-- The calls of the pallet.
pub data Call : Type 0 where
  create_bucket : String → Bool → Call
  set_bucket_params : ℕ → Bool → Call
  deposit : String → ℕ → Call
  deposit_extra : String → ℕ → Call
  deposit_for : String → String → ℕ → Call
  unlock_deposit : String → ℕ → Call
  withdraw_unlocked_deposit : String → Call
  remove_bucket : ℕ → Call

-- `Sendable`: a call, or `utility.batch` of calls.
pub data Sendable : Type 0 where
  single : Call → Sendable
  batch : List Call → Sendable

-- `Boolean(value)`, for a value that may be undefined.
abbrev pub is_truthy : Option Json → Bool
is_truthy none = false
is_truthy (some null) = false
is_truthy (some (number zero)) = false
is_truthy (some (number (suc n))) = true
is_truthy (some (text s)) = not (s === "")
is_truthy (some other) = true

-- `BigInt(value)`; it throws where there is none.
abbrev pub big_int : Option Json → Option ℕ
big_int (some (number n)) = some n
big_int (some (text s)) = big_int_of s
big_int _ = none

abbrev pub cons_option : {A : Type 0} → Option A → Option (List A) → Option (List A)
cons_option (some a) (some rest) = some (a ∷ rest)
cons_option _ _ = none

-- `map(BigInt)`
abbrev pub big_ints : List (Option Json) → Option (List ℕ)
big_ints [] = some []
big_ints (v ∷ rest) = cons_option (big_int v) (big_ints rest)

abbrev pub is_event : String → Event → Bool
is_event method e = e.section === "ddcCustomers" && e.method === method

abbrev pub bucket_id_field : Event → Option Json
bucket_id_field e = lookup "bucket_id" e.payload

-- `extractCreatedBucketIds` and `extractRemovedBucketIds`, by the method of their events.
unfoldable pub extract_bucket_ids : String → List Event → Option (List ℕ)
unfolding lookup big_int_of
extract_bucket_ids method events =
    big_ints (keep is_truthy (map bucket_id_field (keep (is_event method) events)))

abbrev pub extract_created_bucket_ids : List Event → Option (List ℕ)
extract_created_bucket_ids events = extract_bucket_ids "BucketCreated" events

abbrev pub extract_removed_bucket_ids : List Event → Option (List ℕ)
extract_removed_bucket_ids events = extract_bucket_ids "BucketRemoved" events

-- `removeBuckets`; none is the error 'At least one bucket ID must be provided'.
abbrev pub remove_buckets : List ℕ → Option Sendable
remove_buckets [] = none
remove_buckets (id ∷ []) = some (single (remove_bucket id))
remove_buckets (id ∷ id' ∷ rest) = some (batch (map remove_bucket (id ∷ id' ∷ rest)))

-- A bucket as the JSON of the chain has it.
pub record JsonBucket : Type 0 where
  pub bucket_id : Json
  pub owner_id : String
  pub cluster_id : String
  pub is_public : Bool
  pub is_removed : Bool

abbrev pub with_id : JsonBucket → Option ℕ → Option Bucket
with_id b none = none
with_id b (some id) = some (record {
  bucket_id = id;
  owner_id = b.owner_id;
  cluster_id = b.cluster_id;
  is_public = b.is_public;
  is_removed = b.is_removed;
})

-- `getBucket`, of the JSON; the outer none is an error of `BigInt`.
abbrev pub get_bucket : Option JsonBucket → Option (Option Bucket)
get_bucket none = some none
get_bucket (some b) = elim (with_id b (big_int (some b.bucket_id))) [
  | none ↦ none
  | some bucket ↦ some (some bucket)
]

-- `listBuckets`, of the JSON of the entries
unfoldable pub list_buckets : List (Option JsonBucket) → Option (List Bucket)
unfolding big_int_of
list_buckets [] = some []
list_buckets (none ∷ rest) = list_buckets rest
list_buckets (some b ∷ rest) =
    cons_option (with_id b (big_int (some b.bucket_id))) (list_buckets rest)

-- `StakingInfo`
pub record StakingInfo : Type 0 where
  pub owner : String
  pub total : ℕ
  pub active : ℕ
