-- ===== src/FileStorage/Stored.antt =====
-- What `store` of packages/file-storage/src/FileStorage.ts does with a file.
use mathlib.Core.List.{flatten}
use cere_ddc_sdk_js.Common.{
  ℕ, ◌<◌, ◌≡◌, ◌⊎◌, inl, inr, refl, sym, Option, none, some, List, [], String, Result, ok, err,
  subst,
}
use cere_ddc_sdk_js.Streams.{Bytes, with_chunk_size}
use cere_ddc_sdk_js.Streams.Chunks.{Delivers, with_chunk_size-Delivers}
use cere_ddc_sdk_js.Cid.{Base32}
use cere_ddc_sdk_js.Piece.{MultipartPiece, new_multipart_piece}
use cere_ddc_sdk_js.Nodes.{Thrown}
use cere_ddc_sdk_js.FileStorage.{
  PieceStoreOptions, Request, multipart_piece, StoreError, node_failed, bad_part_cid,
  bad_buffer_size, endless, store_multipart, finish_large, store_stream, store_large, thrown_by,
}
use cere_ddc_sdk_js.FileStorage.Requests.{
  part_requests, Stores, Fails, PartsOutcome, store_parts-Outcome,
}

module _ {W : Type 0} (base32 : Base32) (store_piece : Request → W → W × Result Thrown String)
    (options : PieceStoreOptions) where
  -- All parts are stored, and then the multipart piece of their CIDs is, with the CID returned.
  abbrev pub Finished : ℕ → ℕ → List Bytes → W → W → String → Type 0
  Finished total part_size parts w w' cid =
      (cids : List String) × (v : W) × (piece : MultipartPiece) × Stores store_piece
        (part_requests options 0 parts) cids w v
      × (new_multipart_piece base32 cids part_size total ≡ some piece)
      × (store_piece (multipart_piece piece options) v ≡ (w', ok cid))

  -- A part is refused; or all are stored, and their CIDs or the multipart piece are refused.
  abbrev pub Broken : ℕ → ℕ → List Bytes → W → W → StoreError → Type 0
  Broken total part_size parts w w' (node_failed e) =
      Fails store_piece (part_requests options 0 parts) e w w'
      ⊎ ((cids : List String) × (v : W) × (piece : MultipartPiece) × Stores store_piece
            (part_requests options 0 parts) cids w v
          × (new_multipart_piece base32 cids part_size total ≡ some piece)
          × (store_piece (multipart_piece piece options) v ≡ (w', err e)))
  Broken total part_size parts w w' bad_part_cid =
      (cids : List String) × Stores store_piece (part_requests options 0 parts) cids w w'
      × (new_multipart_piece base32 cids part_size total ≡ none)
  Broken total part_size parts w w' bad_buffer_size = ⊥
  Broken total part_size parts w w' endless = ⊥

  abbrev pub LargeOutcome : ℕ → ℕ → List Bytes → W → W × Result StoreError String → Type 0
  LargeOutcome total part_size parts w (w', ok cid) = Finished total part_size parts w w' cid
  LargeOutcome total part_size parts w (w', err e) = Broken total part_size parts w w' e

  multipart-Outcome :
      (total part_size : ℕ) (parts : List Bytes) (cids : List String) (w v : W)
      (piece : MultipartPiece) (r : W × Result Thrown String)
      → Stores store_piece (part_requests options 0 parts) cids w v
      → new_multipart_piece base32 cids part_size total ≡ some piece
      → store_piece (multipart_piece piece options) v ≡ r
      → LargeOutcome total part_size parts w (thrown_by r)
  multipart-Outcome total part_size parts cids w v piece (w', ok cid) s p e =
      (cids, v, piece, s, p, e)
  multipart-Outcome total part_size parts cids w v piece (w', err thrown) s p e =
      inr (cids, v, piece, s, p, e)

  store_multipart-Outcome :
      (total part_size : ℕ) (parts : List Bytes) (cids : List String) (w v : W)
      (made : Option MultipartPiece)
      → Stores store_piece (part_requests options 0 parts) cids w v
      → new_multipart_piece base32 cids part_size total ≡ made
      → LargeOutcome total part_size parts w (store_multipart base32 store_piece options made v)
  store_multipart-Outcome total part_size parts cids w v none s p = (cids, s, p)
  store_multipart-Outcome total part_size parts cids w v (some piece) s p =
      multipart-Outcome total part_size parts cids w v piece _ s p refl

  finish_large-Outcome :
      (total part_size : ℕ) (parts : List Bytes) (w : W) (r : W × Result Thrown (List String))
      → PartsOutcome store_piece options parts 0 [] w r
      → LargeOutcome total part_size parts w
          (finish_large base32 store_piece options total part_size r)
  finish_large-Outcome total part_size parts w (v, ok all) (cids, joins, s) =
      store_multipart-Outcome total part_size parts all w v _
        (subst (λ c. Stores store_piece (part_requests options 0 parts) c w v) (sym joins) s) refl
  finish_large-Outcome total part_size parts w (v, err e) f = inl f

  -- The parts that the bytes are cut into, and what becomes of them.
  abbrev pub StoredLarge : ℕ → ℕ → Bytes → W → W × Result StoreError String → Type 0
  StoredLarge total part_size content w r =
      (parts : List Bytes) × Delivers part_size content (some parts)
      × LargeOutcome total part_size parts w r

  store_stream-Outcome :
      (total part_size : ℕ) (content : Bytes) (w : W) (parts : Option (List Bytes))
      → Delivers part_size content parts
      → StoredLarge total part_size content w
          (store_stream base32 store_piece options total part_size parts w)
  store_stream-Outcome total part_size content w none d = absurd d
  store_stream-Outcome total part_size content w (some parts) d = (
    parts,
    d,
    finish_large-Outcome total part_size parts w _
        (store_parts-Outcome store_piece options parts 0 [] w),
  )

  -- For a positive part size, a large file with a body is cut into parts that hold its bytes, in
  -- order, all of the part size but the last; the parts are requested one after the other with
  -- their offsets, and the multipart piece after them; the first refusal ends it.
  pub store_large-StoredLarge :
      (body : List Bytes) (total part_size : ℕ) (w : W)
      → 0 < part_size
      → StoredLarge total part_size (flatten body) w (
          store_large base32 store_piece
            (record { body = some body; size = some total })
            options
            part_size
            w)
  unfolding store_large
  store_large-StoredLarge body total part_size w positive =
      store_stream-Outcome total part_size (flatten body) w (with_chunk_size part_size body)
        (with_chunk_size-Delivers part_size body positive)
