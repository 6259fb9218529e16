-- ===== src/Blockchain/Tests.antt =====
-- Runs of packages/blockchain/src on reports and nodes of a chain.
use cere_ddc_sdk_js.Common.{ℕ, ◌≡◌, refl, false, none, some, [], ◌∷◌, ok, err, or_else, big_int_of}
use cere_ddc_sdk_js.Routing.{full}
use cere_ddc_sdk_js.Blockchain.{StorageNodeProps}
use cere_ddc_sdk_js.Blockchain.Transaction.{Notice, reported, in_module, MetaError, send}
use cere_ddc_sdk_js.Blockchain.Transaction.Outcome.{Outcome, send-Outcome}
use cere_ddc_sdk_js.Blockchain.Customers.{batch, remove_bucket, remove_buckets}
use cere_ddc_sdk_js.Blockchain.Nodes.{HexLib, JsonNode}

abbrev known_error : ℕ → MetaError
known_error n = record {
  section = "ddcCustomers";
  name = "NoBucket";
  docs = "There is no" ∷ "such bucket" ∷ [];
}

abbrev in_block : Notice ℕ
in_block = reported (record { finalized = none; events = []; dispatch_error = some (in_module 3) })

abbrev finalized : Notice ℕ
finalized =
    reported (record { finalized = some "0xab"; events = []; dispatch_error = some (in_module 3) })

-- Test: the error of a dispatch, from the docs of the module.
send_failed :
    send known_error (in_block ∷ finalized ∷ [])
    ≡ some (err "ddcCustomers.NoBucket: There is no such bucket")
unfolding send
send_failed = refl

-- Test: a final report counts as a success although the dispatch failed.
send_finalized :
    send known_error (finalized ∷ []) ≡ some (ok (record { events = []; tx_hash = "0xab" }))
unfolding send
send_finalized = refl

send-Outcome_example : Outcome known_error (in_block ∷ finalized ∷ [])
send-Outcome_example = send-Outcome known_error (in_block ∷ finalized ∷ [])

-- Test: numbers from decimal and hexadecimal text, and from no digits.
big_int_of_decimal : big_int_of "1024" ≡ some 1024
unfolding big_int_of
big_int_of_decimal = refl

big_int_of_hex : big_int_of "0xfF" ≡ some 255
unfolding big_int_of
big_int_of_hex = refl

big_int_of_word : big_int_of "five" ≡ none
unfolding big_int_of
big_int_of_word = refl

-- Test: two buckets are removed in a batch.
remove_two : remove_buckets (1 ∷ 2 ∷ []) ≡ some (batch (remove_bucket 1 ∷ remove_bucket 2 ∷ []))
remove_two = refl

-- Test: the hexadecimal text of the tests is the text with a mark.
abbrev plain : HexLib
plain = record { string_to_hex = λ s. or_else s ""; hex_to_string = λ s. or_else s "" }

abbrev new_props : StorageNodeProps
new_props = record {
  host = "10.0.0.1";
  http_port = 8080;
  grpc_port = 9090;
  p2p_port = 9070;
  mode = full;
  domain = none;
  ssl = none;
}

abbrev kept_node : JsonNode
kept_node = record {
  pub_key = "0xaa";
  provider_id = "5Provider";
  cluster_id = some "0x01";
  props = record new_props { domain = some ""; ssl = some false };
}
