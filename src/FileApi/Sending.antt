-- ===== src/FileApi/Sending.antt =====
-- What `putRawPiece` of packages/ddc/src/FileApi/FileApi.ts sends.
use mathlib.Core.List.{flatten}
use cere_ddc_sdk_js.Common.{
  sym, ℕ, ◌+◌, ◌<◌, ◌≤◌, ◌≡◌, ◌⊎◌, inl, inr, refl, ap, subst, Bool, true, false, Option, none, some,
  List, [], ◌∷◌, Result, ok, err, ltb, lt→ltb, length, length-append, arith, All,
}
use cere_ddc_sdk_js.Streams.{Bytes, bytes, content_chunk_size, get_content_size}
use cere_ddc_sdk_js.Streams.Chunks.{Delivers, IsChunked, content_body-Delivers}
use cere_ddc_sdk_js.Nodes.{Thrown}
use cere_ddc_sdk_js.Activity.{Environment, RpcMeta, ActivityError}
use cere_ddc_sdk_js.FileApi.{
  FileError, no_piece_size, piece_too_large, activity_failed, RawCall, max_piece_size, continue,
  send_chunks, complete_after, put_sized,
}
use cere_ddc_sdk_js.FileApi.Calls.{
  FileApiOptions, CallParams, MultipartRequest, RawMetadata, FileCalls, requested, store_fields,
  raw_with, put_body, put_raw_piece,
}

module _ {W Meta : Type 0} (call : RawCall W Meta) where
  -- All chunks, one after the other, up to the first that fails.
  abbrev pub send_all : List Bytes → W → W × Result FileError (Unit {0})
  send_all [] w = (w, ok tt)
  send_all (b ∷ rest) w = continue call (λ _ v. send_all rest v) (call.send_content b w)

  abbrev HasBytes : List Bytes → Type 0
  HasBytes = All (λ b. 0 < length b)

  continue_same :
      {A B : Type 0} (f g : A → W → W × Result FileError B) (r : W × Result Thrown A)
      → ((a : A) (v : W) → f a v ≡ g a v)
      → continue call f r ≡ continue call g r
  continue_same f g (v, ok a) h = h a v
  continue_same f g (v, err e) h = refl

  send_chunks-send_all :
      (sent : ℕ) (chunks : List Bytes) (w : W)
      → HasBytes chunks
      → sent + length (flatten chunks) ≤ max_piece_size
      → send_chunks call sent chunks w ≡ send_all chunks w
  unfolding send_chunks flatten
  send_chunks-send_all sent [] w h fits = refl
  send_chunks-send_all sent (b ∷ rest) w h fits =
      let room : ltb sent max_piece_size ≡ true =
        lt→ltb _ _ (omega (arith, h.0, length-append b (flatten rest))) in
      rw (room) (
        continue_same _ _ (call.send_content b w) (λ a v.
          send_chunks-send_all (sent + length b) rest v h.1
            (omega (arith, length-append b (flatten rest)))))

  IsChunked-HasBytes : (n : ℕ) (chunks : List Bytes) → 0 < n → IsChunked n chunks → HasBytes chunks
  IsChunked-HasBytes n [] positive h = tt
  IsChunked-HasBytes n (b ∷ []) positive h = (h.0, tt)
  IsChunked-HasBytes n (b ∷ d ∷ rest) positive h =
      (omega (arith, h.0), IsChunked-HasBytes n (d ∷ rest) positive h.1)

  -- The metadata with the size, then all the chunks, then the end.
  abbrev pub send_whole : Meta → ℕ → List Bytes → W → W × Result FileError Bytes
  send_whole metadata size chunks w =
      continue call (λ _ v. complete_after call (send_all chunks v))
        (call.headers (call.send_metadata metadata size w))

  abbrev pub IsSent : Meta → Bytes → W → W × Result FileError Bytes → Type 0
  IsSent metadata b w r =
      (chunks : List Bytes) × Delivers content_chunk_size b (some chunks)
      × (r ≡ send_whole metadata (length b) chunks w)

  put_sized-IsSent :
      (metadata : Meta) (b : Bytes) (w : W) (body : Option (List Bytes))
      → Delivers content_chunk_size b body
      → length b ≤ max_piece_size
      → IsSent metadata b w (put_sized call metadata (length b) body w)
  unfolding put_sized
  put_sized-IsSent metadata b w none d fits = absurd d
  put_sized-IsSent metadata b w (some chunks) d fits = (
    chunks,
    d,
    continue_same _ _ (call.headers (call.send_metadata metadata (length b) w)) (λ a v.
        ap (complete_after call) (
          send_chunks-send_all 0 chunks v
            (IsChunked-HasBytes content_chunk_size chunks (omega arith) d.1)
            (subst (λ c. 0 + length c ≤ max_piece_size) (sym d.0) (omega arith)))),
  )

ltb-cases : (a b : ℕ) → ((ltb a b ≡ true) × (a < b)) ⊎ ((ltb a b ≡ false) × (b ≤ a))
ltb-cases a b = ground arith

module _ (env : Environment) (multipart_binary : MultipartRequest → Bytes)
    (same_hash : Bytes → Bytes → Bool) (options : FileApiOptions) (params : CallParams) {W : Type 0}
    (calls : FileCalls W) where
  -- The metadata of the call could not be made, or the call is made with it.
  abbrev pub IsRequested : RawMetadata → Bytes → W → W × Result FileError Bytes → Type 0
  IsRequested metadata b w r =
      let made = requested env multipart_binary same_hash options params (
        store_fields env multipart_binary same_hash options params metadata.bucket_id (length b)) in
      ((e : ActivityError) × (made ≡ err e) × (r ≡ (w, err (activity_failed e))))
      ⊎ ((meta : RpcMeta) × (made ≡ ok meta) × IsSent (calls.put_raw_piece meta) metadata b w r)

  -- Refused for its size, or sent.
  abbrev pub RawOutcome : RawMetadata → Bytes → W → W × Result FileError Bytes → Type 0
  RawOutcome metadata b w r =
      ((b ≡ []) × (r ≡ (w, err no_piece_size)))
      ⊎ ((max_piece_size < length b) × (r ≡ (w, err piece_too_large)))
      ⊎ ((length b ≤ max_piece_size) × IsRequested metadata b w r)

  raw_with-IsRequested :
      (metadata : RawMetadata) (b : Bytes) (w : W) (body : Option (List Bytes))
      (made : Result ActivityError RpcMeta)
      → requested env multipart_binary same_hash options params
          (store_fields env multipart_binary same_hash options params metadata.bucket_id (length b))
        ≡ made
      → Delivers content_chunk_size b body
      → length b ≤ max_piece_size
      → IsRequested metadata b w (
          raw_with env multipart_binary same_hash options params calls metadata body
            (length b)
            made
            w)
  raw_with-IsRequested metadata b w body (err e) h d fits = inl (e, h, refl)
  raw_with-IsRequested metadata b w body (ok meta) h d fits =
      inr (meta, h, put_sized-IsSent (calls.put_raw_piece meta) metadata b w body d fits)

  -- Content whose body delivers the bytes, and whose size is their number.
  pub put_body-RawOutcome :
      (metadata : RawMetadata) (body : Option (List Bytes)) (b : Bytes) (w : W)
      → Delivers content_chunk_size b body
      → RawOutcome metadata b w (
          put_body env multipart_binary same_hash options params calls metadata body
            (some (length b))
            w)
  put_body-RawOutcome metadata body [] w d = inl (refl, refl)
  put_body-RawOutcome metadata body (x ∷ b) w d = elim (ltb-cases max_piece_size (length (x ∷ b))) [
    | inl (e, large) ↦ inr (inl (large, rw (e) refl))
    | inr (e, fits) ↦
        inr (inr (fits, rw (e) (raw_with-IsRequested metadata (x ∷ b) w body _ refl d fits)))
  ]

  -- A byte array is refused with no call where it is empty or larger than a piece may be, or where
  -- its activity request cannot be made; and otherwise the call gets its metadata and its size, then
  -- all its bytes in chunks of the gRPC chunk size but for the last, and is completed; the first
  -- message that fails ends it.
  pub put_raw_piece_bytes :
      (metadata : RawMetadata) (size : Option ℕ) (b : Bytes) (w : W)
      → RawOutcome metadata b w (
          put_raw_piece env multipart_binary same_hash options params calls metadata size
            (bytes b)
            w)
  unfolding put_raw_piece get_content_size
  put_raw_piece_bytes metadata size b w =
      put_body-RawOutcome metadata _ b w (content_body-Delivers b)
