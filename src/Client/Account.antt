-- ===== src/Client/Account.antt =====
-- packages/ddc-client/src/DdcClient.ts: the operations of the client on the chain, over the chain and the
-- pallets of packages/blockchain/src. A transaction is sent, and what is reported of it is an answer.
pub mod Buckets
mod Tests
use cere_ddc_sdk_js.Common.{
  string_eq, ◌===◌, if◌then◌else◌, ℕ, zero, suc, Bool, true, false, Option, none, some, List, [],
  ◌∷◌, String, Result, ok, err, or_else, if◌then◌else◌, lookup,
}
use cere_ddc_sdk_js.Auth.{Signer}
use cere_ddc_sdk_js.Blockchain.Transaction.{MetaError, Notice, SendResult, Event, send}
use cere_ddc_sdk_js.Blockchain.Customers
use cere_ddc_sdk_js.Blockchain.Customers.{Sendable, extract_bucket_ids, StakingInfo}

-- The chain: what is reported of a transaction, in order; and the stake of an account in a cluster.
pub record ChainCalls (W Module : Type 0) : Type 0 where
  pub sign_and_send : Sendable → W → W × List (Notice Module)
  pub get_staking_info : String → String → W → W × Result String (Option StakingInfo)
  pub find_meta_error : Module → MetaError

pub data AccountError : Type 0 where
  chain_error : String → AccountError
  -- 'At least one bucket ID must be provided'
  no_bucket_ids : AccountError
  -- `BigInt` of what is no number
  bad_bucket_id : AccountError

-- A promise: none where it is pending.
abbrev pub Promise : Type 0 → Type 0
Promise A = Option (Result AccountError A)

abbrev pub then_do :
    {A : Type 0}
    → (SendResult → Result AccountError A)
    → Option (Result String SendResult)
    → Promise A
then_do next none = none
then_do next (some (err e)) = some (err (chain_error e))
then_do next (some (ok r)) = some (next r)

-- `const [first] = ids`, where `BigInt` may have thrown.
abbrev pub first_id : Option (List ℕ) → Result AccountError (Option ℕ)
first_id none = err bad_bucket_id
first_id (some []) = ok none
first_id (some (id ∷ rest)) = ok (some id)

abbrev pub all_ids : Option (List ℕ) → Result AccountError (List ℕ)
all_ids none = err bad_bucket_id
all_ids (some ids) = ok ids

module _ {W Module : Type 0} (chain : ChainCalls W Module) where
  -- `this.blockchain.send(tx, { account: this.signer })`, and what follows it
  abbrev pub send_then :
      {A : Type 0} → (SendResult → Result AccountError A) → Sendable → W → W × Promise A
  send_then next tx w =
      let (w', notices) = chain.sign_and_send tx w in
      (w', then_do next (send chain.find_meta_error notices))

  -- `{ ...defaultParams, ...params }`
  unfoldable pub create_bucket : String → Option Bool → W → W × Promise (Option ℕ)
  unfolding extract_bucket_ids send
  create_bucket cluster is_public w =
      send_then (λ r. first_id (Customers.extract_created_bucket_ids r.events))
        (Customers.single (Customers.create_bucket cluster (or_else is_public false))) w

  abbrev pub remove_with : Option Sendable → W → W × Promise (List ℕ)
  remove_with none w = (w, some (err no_bucket_ids))
  remove_with (some tx) w =
      send_then (λ r. all_ids (Customers.extract_removed_bucket_ids r.events)) tx w

  -- `removeBuckets`
  unfoldable pub remove_buckets : List ℕ → W → W × Promise (List ℕ)
  unfolding extract_bucket_ids send
  remove_buckets ids w = remove_with (Customers.remove_buckets ids) w

  abbrev pub deposit_with :
      String → ℕ → W × Result String (Option StakingInfo) → W × Promise SendResult
  deposit_with cluster amount (w, err e) = (w, some (err (chain_error e)))
  deposit_with cluster amount (w, ok none) =
      send_then ok (Customers.single (Customers.deposit cluster amount)) w
  deposit_with cluster amount (w, ok (some stake)) =
      send_then ok (Customers.single (Customers.deposit_extra cluster amount)) w

  -- `depositBalance`; `allowExtra === false` asks for no stake.
  unfoldable pub deposit_balance : String → String → ℕ → Option Bool → W → W × Promise SendResult
  unfolding send
  deposit_balance account cluster amount (some false) w = deposit_with cluster amount (w, ok none)
  deposit_balance account cluster amount (some true) w =
      deposit_with cluster amount (chain.get_staking_info cluster account w)
  deposit_balance account cluster amount none w =
      deposit_with cluster amount (chain.get_staking_info cluster account w)

  unfoldable pub deposit_balance_for : String → String → ℕ → W → W × Promise SendResult
  unfolding send
  deposit_balance_for target cluster amount w =
      send_then ok (Customers.single (Customers.deposit_for target cluster amount)) w

  unfoldable pub unlock_deposit : String → ℕ → W → W × Promise SendResult
  unfolding send
  unlock_deposit cluster amount w =
      send_then ok (Customers.single (Customers.unlock_deposit cluster amount)) w

  unfoldable pub withdraw_unlocked_deposit : String → W → W × Promise SendResult
  unfolding send
  withdraw_unlocked_deposit cluster w =
      send_then ok (Customers.single (Customers.withdraw_unlocked_deposit cluster)) w

  abbrev pub active_stake : W × Result String (Option StakingInfo) → W × Result AccountError ℕ
  active_stake (w, err e) = (w, err (chain_error e))
  active_stake (w, ok none) = (w, ok 0)
  active_stake (w, ok (some info)) = (w, ok info.active)

  -- `accountId || this.signer.address`
  abbrev pub account_of : String → Option String → String
  account_of address none = address
  account_of address (some account) = if account === "" then address else account

  -- `getDeposit`: `info?.active || 0n`
  unfoldable pub get_deposit : String → String → Option String → W → W × Result AccountError ℕ
  get_deposit address cluster account w =
      active_stake (chain.get_staking_info cluster (account_of address account) w)
