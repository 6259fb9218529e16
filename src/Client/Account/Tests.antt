-- ===== src/Client/Account/Tests.antt =====
-- Runs of the operations on the chain of packages/ddc-client/src/DdcClient.ts.
use cere_ddc_sdk_js.Common.{insert, ℕ, ◌≡◌, refl, false, none, some, List, [], ◌∷◌, ok, err, lookup}
use cere_ddc_sdk_js.Blockchain.Transaction.{number, EventRecord, Notice, reported}
use cere_ddc_sdk_js.Blockchain.Customers
use cere_ddc_sdk_js.Blockchain.Customers.{Sendable}
use cere_ddc_sdk_js.Client.Account.{
  ChainCalls, no_bucket_ids, create_bucket, remove_buckets, deposit_balance,
}
use cere_ddc_sdk_js.Client.Account.Buckets.{nil, named, skipped, create_bucket-positive}

abbrev created : ℕ → EventRecord
created n = record {
  section = "ddcCustomers";
  method = "BucketCreated";
  fields = ("bucket_id", number n) ∷ [];
}

abbrev fee : EventRecord
fee = record { section = "balances"; method = "Withdraw"; fields = [] }

abbrev reports : ℕ → List (Notice ℕ)
reports n =
    reported (record { finalized = none; events = []; dispatch_error = none })
    ∷ reported
        (record { finalized = some "0xab"; events = fee ∷ created n ∷ []; dispatch_error = none })
    ∷ []

-- The world of the tests is the transactions that were sent.
abbrev chain_with : ℕ → ChainCalls (List Sendable) ℕ
chain_with n = record {
  sign_and_send = λ tx w. (tx ∷ w, reports n);
  get_staking_info = λ cluster account w. (w, ok none);
  find_meta_error = λ m. record { section = "s"; name = "n"; docs = [] };
}

abbrev creation : Sendable
creation = Customers.single (Customers.create_bucket "0x01" false)

create_bucket-positive_example :
    create_bucket (chain_with 7) "0x01" none [] ≡ (creation ∷ [], some (ok (some 7)))
unfolding lookup insert
create_bucket-positive_example =
    create_bucket-positive (chain_with 7) "0x01" none [] (creation ∷ []) (reports 7)
      (fee ∷ created 7 ∷ []) (7 ∷ []) refl
      (
        reported (record { finalized = none; events = []; dispatch_error = none }) ∷ [],
        [],
        _,
        "0xab",
        refl,
        ((refl, refl), tt),
        refl,
        refl,
      )
      (skipped refl (named 7 refl refl nil))

-- Test: the id of bucket 0 is lost.
create_bucket_zero : create_bucket (chain_with 0) "0x01" none [] ≡ (creation ∷ [], some (ok none))
unfolding create_bucket
create_bucket_zero = refl

-- Test: no transaction is sent for no buckets.
remove_no_buckets : remove_buckets (chain_with 0) [] [] ≡ ([], some (err no_bucket_ids))
unfolding remove_buckets
remove_no_buckets = refl

-- Test: an account without a stake makes its first deposit.
first_deposit :
    (deposit_balance (chain_with 0) "5App" "0x01" 10 none []).0
    ≡ Customers.single (Customers.deposit "0x01" 10) ∷ []
unfolding deposit_balance
first_deposit = refl
