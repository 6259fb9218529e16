-- ===== src/StorageNode/Kept.antt =====
-- What a service that keeps pieces has after `storePiece` of packages/ddc/src/nodes/StorageNode.ts put a
-- byte array, over the APIs of the constructor.
use mathlib.Core.List.{flatten}
use cere_ddc_sdk_js.Common.{
  ℕ, ◌≡◌, inl, inr, sym, ◌∙◌, subst, true, Option, none, some, List, Result, ok, ltb, length,
}
use cere_ddc_sdk_js.Streams.{Bytes, bytes, content_chunk_size}
use cere_ddc_sdk_js.Streams.Chunks.{Delivers}
use cere_ddc_sdk_js.Piece.{is_part, PieceMeta, new_piece}
use cere_ddc_sdk_js.Piece.Size.{new_piece_bytes}
use cere_ddc_sdk_js.Auth.{Token}
use cere_ddc_sdk_js.Activity.{RpcMeta}
use cere_ddc_sdk_js.FileApi.{FileError, Response}
use cere_ddc_sdk_js.FileApi.Calls.{CallParams, RawMetadata, FileRequest, FileCalls, put_body}
use cere_ddc_sdk_js.FileApi.Reading.{data_of}
use cere_ddc_sdk_js.FileApi.Sending.{send_whole, RawOutcome, put_body-RawOutcome}
use cere_ddc_sdk_js.StorageNode.{
  OperationOptions, Apis, Session, single, file_failed, meta_of, put_piece,
}
use cere_ddc_sdk_js.StorageNode.Stored.{thrown_ok}
use cere_ddc_sdk_js.StorageNode.Wired.{
  Packages, Server, NodeConfig, file_options, call_params, apis_of,
}

-- The service answers for the bytes of a state, by their CID.
abbrev pub IsKept : {W : Type 0} → FileCalls W → Bytes → Bytes → W → Type 0
IsKept {W} calls cid b w' =
    (meta : RpcMeta) (request : FileRequest)
    → request.cid ≡ cid
    → request.range ≡ none
    → (u : W) × (responses : List Response) × (calls.get_file meta request w'
        ≡ (u, ok (responses, none)))
      × (flatten (data_of responses) ≡ b)

-- The service names what a call sends by a CID of more than 32 bytes, and keeps it.
abbrev pub KeepsPieces : {W : Type 0} → FileCalls W → Type 0
KeepsPieces {W} calls =
    (meta : RpcMeta) (metadata : RawMetadata) (n : ℕ) (chunks : List Bytes) (w w' : W) (cid : Bytes)
    → send_whole (calls.put_raw_piece meta) metadata n chunks w ≡ (w', ok cid)
    → (ltb 32 (length cid) ≡ true) × IsKept calls cid (flatten chunks) w'

module _ (packages : Packages) (config : NodeConfig) (session : Session) {W : Type 0}
    (server : Server W) where
  abbrev apis : Apis W
  apis = apis_of packages config session.signer server

  outcome-IsKept :
      (params : CallParams) (metadata : RawMetadata) (b cid : Bytes) (w v : W)
      (r : W × Result FileError Bytes)
      → KeepsPieces server.files
      → RawOutcome packages.env packages.multipart_binary packages.same_hash
          (file_options packages config session.signer)
          params
          server.files
          metadata
          b
          w
          r
      → r ≡ (v, ok cid)
      → (ltb 32 (length cid) ≡ true) × IsKept server.files cid b v
  outcome-IsKept params metadata b cid w v r keeps (inl (_, e)) h = cc
  outcome-IsKept params metadata b cid w v r keeps (inr (inl (_, e))) h = cc
  outcome-IsKept params metadata b cid w v r keeps (inr (inr (_, inl (x, _, e)))) h = cc
  outcome-IsKept params metadata b cid w v r keeps (inr (inr (_, inr (meta, _, (chunks, d, e)))))
        h =
      let (long, kept) = keeps meta metadata (length b) chunks w v cid (sym e ∙ h) in
      (long, subst (λ c. IsKept server.files cid c v) d.0 kept)

  put_body-IsKept :
      (params : CallParams) (metadata : RawMetadata) (body : Option (List Bytes)) (b cid : Bytes)
      (w v : W)
      → KeepsPieces server.files
      → Delivers content_chunk_size b body
      → put_body packages.env packages.multipart_binary packages.same_hash
          (file_options packages config session.signer)
          params
          server.files
          metadata
          body
          (some (length b))
          w
        ≡ (v, ok cid)
      → (ltb 32 (length cid) ≡ true) × IsKept server.files cid b v
  put_body-IsKept params metadata body b cid w v keeps delivers h =
      outcome-IsKept params metadata b cid w v _ keeps
        (put_body-RawOutcome packages.env packages.multipart_binary packages.same_hash
          (file_options packages config session.signer) params server.files metadata body b w
          delivers)
        h

  pub put_piece-IsKept :
      (bucket_id : ℕ) (options : OperationOptions) (token : Token) (b cid : Bytes)
      (piece_meta : PieceMeta) (w v : W)
      → KeepsPieces server.files
      → put_piece session apis bucket_id options
          (meta_of session apis bucket_id options token)
          (single (new_piece (bytes b) piece_meta))
          w
        ≡ (v, ok cid)
      → (ltb 32 (length cid) ≡ true) × IsKept server.files cid b v
  unfolding apis_of
  put_piece-IsKept bucket_id options token b cid piece_meta w v keeps h =
      let (delivers, sized) = new_piece_bytes b piece_meta in
      let piece = new_piece (bytes b) piece_meta in
      let metadata : RawMetadata = record {
        bucket_id = bucket_id;
        is_multipart = is_part piece;
        offset = piece.offset;
      } in
      let params =
        call_params packages config session.signer (server.clock w)
          (meta_of session apis bucket_id options token) in
      elim sized [
        | inl (_, e) ↦
            put_body-IsKept params metadata piece.body b cid w v keeps delivers
              (thrown_ok file_failed _ v cid (rw (e) at h))
        | inr (_, e) ↦ cc (rw (e) at h)
      ]
