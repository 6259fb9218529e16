-- ===== src/FileStorage/Tests.antt =====
-- Runs of packages/file-storage/src/FileStorage.ts over a node that counts its requests.
use cere_ddc_sdk_js.Common.{
  ℕ, zero, suc, ◌≡◌, refl, none, some, [], ◌∷◌, String, Result, ok, err, arith,
}
use mathlib.Core.List.{flatten}
use cere_ddc_sdk_js.Streams.{bytes}
use cere_ddc_sdk_js.Cid.Codec.{codec, encode}
use cere_ddc_sdk_js.Nodes.{Thrown, plain_error}
use cere_ddc_sdk_js.FileStorage.{
  PieceStoreOptions, Request, new_file, store, store_large, part_size_of, bad_buffer_size,
}
use cere_ddc_sdk_js.FileStorage.Stored.{StoredLarge, store_large-StoredLarge}
use cere_ddc_sdk_js.FileStorage.Whole.{StoreOutcome, store-StoreOutcome}

-- The state is the number of the requests so far; the node takes three.
abbrev counted : ℕ → ℕ × Result Thrown String
counted zero = (1, ok (encode (10 ∷ [])))
counted (suc zero) = (2, ok (encode (11 ∷ [])))
counted (suc (suc zero)) = (3, ok "last")
counted n = (suc n, err (plain_error "full"))

abbrev node : Request → ℕ → ℕ × Result Thrown String
node request n = counted n

abbrev named : PieceStoreOptions
named = record { access_token = none; name = some "my file"; correlation_id = none }

-- Test: five bytes in parts of three are two parts, and the multipart piece.
store_large_two_parts :
    store_large codec node
      (record { body = some ((1 ∷ 2 ∷ []) ∷ (3 ∷ 4 ∷ 5 ∷ []) ∷ []); size = some 5 })
      named
      3
      0
    ≡ (3, ok "last")
unfolding store_large
store_large_two_parts = refl

-- Test: a part size that is too small makes no request.
store_small_parts :
    store codec node (new_file (bytes (1 ∷ [])) none) named (some 100) 0 ≡ (0, err bad_buffer_size)
unfolding store
store_small_parts = refl

store_large-StoredLarge_example :
    StoredLarge codec node named 5 3 (flatten ((1 ∷ 2 ∷ []) ∷ (3 ∷ 4 ∷ 5 ∷ []) ∷ [])) 0 (
      store_large codec node
        (record { body = some ((1 ∷ 2 ∷ []) ∷ (3 ∷ 4 ∷ 5 ∷ []) ∷ []); size = some 5 })
        named
        3
        0)
store_large-StoredLarge_example =
    store_large-StoredLarge codec node named ((1 ∷ 2 ∷ []) ∷ (3 ∷ 4 ∷ 5 ∷ []) ∷ []) 5 3 0
      (omega arith)

store-StoreOutcome_example :
    StoreOutcome codec node named
      (1 ∷ 2 ∷ [])
      (part_size_of none)
      0
      (store codec node (new_file (bytes (1 ∷ 2 ∷ [])) none) named none 0)
store-StoreOutcome_example = store-StoreOutcome codec node named (1 ∷ 2 ∷ []) none 0
