-- ===== src/FileStorage/Whole.antt =====
-- `store` of packages/file-storage/src/FileStorage.ts on the file of a byte array: its guard, its
-- choice between one piece and many, and where a part of a large file begins.
use cere_ddc_sdk_js.Common.{
  ℕ, zero, suc, ◌+◌, ◌*◌, ◌<◌, ◌≤◌, ◌≡◌, ◌⊎◌, inl, inr, refl, ap, ◌∙◌, true, false, Option, none,
  some, List, [], ◌∷◌, String, Result, err, length, arith, get_elem?, ltb, subst,
}
use cere_ddc_sdk_js.Streams.{Bytes, bytes, content_body, content_chunk_size, get_content_size}
use cere_ddc_sdk_js.Streams.Chunks.{content_body-Delivers, Delivers, IsChunked}
use cere_ddc_sdk_js.Cid.{Base32}
use cere_ddc_sdk_js.Nodes.{Thrown}
use cere_ddc_sdk_js.FileStorage.{
  File, new_file, PieceStoreOptions, Request, StoreError, bad_buffer_size, whole_request,
  part_request, part_size_of, is_out_of_range, store_small, store_large, store, thrown_by,
  min_buffer_size, max_buffer_size,
}
use cere_ddc_sdk_js.FileStorage.Requests.{part_requests}
use cere_ddc_sdk_js.FileStorage.Stored.{StoredLarge, store_large-StoredLarge}

module _ {W : Type 0} (base32 : Base32) (store_piece : Request → W → W × Result Thrown String)
    (options : PieceStoreOptions) where
  -- By the part size `p`: refused with no request; in one request; or in parts.
  abbrev pub StoreOutcome : Bytes → ℕ → W → W × Result StoreError String → Type 0
  StoreOutcome content p w r =
      (((p < min_buffer_size) ⊎ (max_buffer_size < p)) × (r ≡ (w, err bad_buffer_size)))
      ⊎ (((min_buffer_size ≤ p) × (p ≤ max_buffer_size))
          × (((length content ≤ p)
                × (r ≡ thrown_by (store_piece (whole_request options content) w)))
              ⊎ ((p < length content)
                  × StoredLarge base32 store_piece options (length content) p content w r)))

  sized : Option (List Bytes) → Bytes → File
  sized body content = record { body = body; size = some (length content) }

  store_small_whole :
      (body : Option (List Bytes)) (content : Bytes) (n : ℕ) (w : W)
      → Delivers n content body
      → store_small base32 store_piece (sized body content) options w
        ≡ thrown_by (store_piece (whole_request options content) w)
  unfolding store_small sized
  store_small_whole none content n w d = absurd d
  store_small_whole (some chunks) content n w d =
      ap (λ c. thrown_by (store_piece (whole_request options c) w)) d.0

  store_large_whole :
      (body : Option (List Bytes)) (content : Bytes) (n p : ℕ) (w : W)
      → 0 < p
      → Delivers n content body
      → StoredLarge base32 store_piece options
          (length content)
          p
          content
          w
          (store_large base32 store_piece (sized body content) options p w)
  unfolding sized
  store_large_whole none content n p w positive d = absurd d
  store_large_whole (some chunks) content n p w positive d =
      subst
        (λ c.
          StoredLarge base32 store_piece options (length content) p c w
            (store_large base32 store_piece (sized (some chunks) content) options p w))
        d.0
        (store_large-StoredLarge base32 store_piece options chunks (length content) p w positive)

  is_out_of_range-cases :
      (p : ℕ)
      → ((is_out_of_range p ≡ true) × ((p < min_buffer_size) ⊎ (max_buffer_size < p)))
        ⊎ ((is_out_of_range p ≡ false) × ((min_buffer_size ≤ p) × (p ≤ max_buffer_size)))
  is_out_of_range-cases p = ground arith

  ltb-cases : (a b : ℕ) → ((ltb a b ≡ true) × (a < b)) ⊎ ((ltb a b ≡ false) × (b ≤ a))
  ltb-cases a b = ground arith

  store-sized :
      (body : Option (List Bytes)) (content : Bytes) (n : ℕ) (max_buffer : Option ℕ) (w : W)
      → Delivers n content body
      → StoreOutcome content
          (part_size_of max_buffer)
          w
          (store base32 store_piece (sized body content) options max_buffer w)
  unfolding store sized
  store-sized body content n max_buffer w d =
      let p = part_size_of max_buffer in
      elim (is_out_of_range-cases p) [
        | inl (e, out) ↦ rw (e) (inl (out, refl))
        | inr (e, within) ↦ elim (ltb-cases p (length content)) [
          | inl (f, large) ↦ rw (e) (
              rw (f)
                (inr (within, inr (large, store_large_whole body content n p w (omega arith) d))))
          | inr (f, small) ↦
              rw (e) (rw (f) (inr (within, inl (small, store_small_whole body content n w d))))
        ]
      ]

  -- The file of a byte array is refused with no request to the node where the part size is out of
  -- range; it is stored as one piece of all its bytes where it is no larger than a part; and
  -- otherwise in parts that hold its bytes, followed by the multipart piece of their CIDs.
  pub store-StoreOutcome :
      (content : Bytes) (max_buffer : Option ℕ) (w : W)
      → StoreOutcome content
          (part_size_of max_buffer)
          w
          (store base32 store_piece (new_file (bytes content) none) options max_buffer w)
  unfolding new_file get_content_size sized
  store-StoreOutcome content max_buffer w =
      store-sized (content_body (bytes content)) content content_chunk_size max_buffer w
        (content_body-Delivers content)

-- The request number `i` of chunks of one size is for the part that begins at `i` times this size.
module _ (options : PieceStoreOptions) (n : ℕ) where
  part_requests_from :
      (offset : ℕ) (parts : List Bytes) (i : ℕ) (part : Bytes)
      → IsChunked n parts
      → get_elem? parts i ≡ some part
      → get_elem? (part_requests options offset parts) i
        ≡ some (part_request options (offset + i * n) part)
  part_requests_from offset [] i part c e = cc
  part_requests_from offset (p ∷ parts) zero part c e =
      let same : p ≡ part = cc in
      rw (same) (ap (λ o. some (part_request options o part)) (omega arith))
  part_requests_from offset (p ∷ []) (suc i) part c e = cc
  part_requests_from offset (p ∷ q ∷ parts) (suc i) part c e =
      part_requests_from (offset + length p) (q ∷ parts) i part c.1 e
      ∙ ap (λ o. some (part_request options o part)) (omega (arith, c.0))

  -- Where the parts have one size but for the last, the request with number `i` is for the part
  -- with number `i`, at the offset of `i` times this size.
  pub part_requests-offsets :
      (parts : List Bytes) (i : ℕ) (part : Bytes)
      → IsChunked n parts
      → get_elem? parts i ≡ some part
      → get_elem? (part_requests options 0 parts) i ≡ some (part_request options (i * n) part)
  part_requests-offsets parts i part c e =
      part_requests_from 0 parts i part c e
      ∙ ap (λ o. some (part_request options o part)) (omega arith)
