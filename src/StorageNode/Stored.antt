-- ===== src/StorageNode/Stored.antt =====
-- What a storing operation of packages/ddc/src/nodes/StorageNode.ts has done when it returns a CID.
use cere_ddc_sdk_js.Common.{subst, ◌≡◌, refl, sym, Option, none, some, String, Result, ok, err, ℕ}
use cere_ddc_sdk_js.Streams.{Bytes}
use cere_ddc_sdk_js.Cid.{raw, to_string}
use cere_ddc_sdk_js.Auth.{Token}
use cere_ddc_sdk_js.StorageNode.{
  NodeFailure, OperationOptions, ApiRecord, Apis, Session, after, bind, thrown, or_throw, non_empty,
  AnyPiece, token_for, store_cns_record, meta_of, put_piece, store_name, finish, store_piece,
}

pub thrown_ok :
    {W E A : Type 0} (failed : E → NodeFailure) (r : W × Result E A) (w' : W) (a : A)
    → thrown failed r ≡ (w', ok a)
    → r ≡ (w', ok a)
thrown_ok failed (v, ok b) w' a h = cc
thrown_ok failed (v, err e) w' a h = cc

pub or_throw_ok :
    {A : Type 0} (e : NodeFailure) (o : Option A) (a : A) → or_throw e o ≡ ok a → o ≡ some a
or_throw_ok e none a h = cc
or_throw_ok e (some b) a h = cc

module _ (session : Session) {W : Type 0} (apis : Apis W) (bucket_id : ℕ)
    (options : OperationOptions) where
  -- The name, if there is one, was recorded for the CID in the last call.
  abbrev pub IsNamed : Option String → String → W → W → Type 0
  IsNamed none cid v w' = w' ≡ v
  IsNamed (some name) cid v w' =
      (a : ApiRecord) × (store_cns_record session apis bucket_id options
          (record { cid = cid; name = name }) v
        ≡ (w', ok a))

  IsNamed-ok :
      (name cid found : String) (v w' : W) (r : W × Result NodeFailure ApiRecord)
      → store_cns_record session apis bucket_id options (record { cid = cid; name = name }) v ≡ r
      → after (λ a u. (u, ok cid)) r ≡ (w', ok found)
      → (found ≡ cid) × IsNamed (some name) cid v w'
  IsNamed-ok name cid found v w' (u, ok a) e h = (cc, (a, cc))
  IsNamed-ok name cid found v w' (u, err x) e h = cc

  store_name_ok :
      (name : Option String) (cid found : String) (v w' : W)
      → store_name session apis bucket_id options name cid v ≡ (w', ok found)
      → (found ≡ cid) × IsNamed name cid v w'
  store_name_ok none cid found v w' h = (cc, cc)
  store_name_ok (some name) cid found v w' h = IsNamed-ok name cid found v w' _ refl h

  -- The content was put, and named.
  abbrev pub IsPut : AnyPiece → W → W → String → Token → Type 0
  IsPut piece w w' cid token =
      (b : Bytes) × (v : W) × (put_piece session apis bucket_id options
          (meta_of session apis bucket_id options token) piece w
        ≡ (v, ok b))
      × (cid ≡ to_string session.base32 (raw b))
      × IsNamed (non_empty options.name) cid v w'

  IsPut-ok :
      (piece : AnyPiece) (w w' : W) (cid : String) (token : Token)
      (r : W × Result NodeFailure Bytes)
      → put_piece session apis bucket_id options
          (meta_of session apis bucket_id options token)
          piece
          w
        ≡ r
      → after (finish session apis bucket_id options) r ≡ (w', ok cid)
      → IsPut piece w w' cid token
  IsPut-ok piece w w' cid token (v, ok b) e h =
      let text_of = to_string session.base32 (raw b) in
      let (same, named) = store_name_ok (non_empty options.name) text_of cid v w' h in
      (b, v, e, same, subst (λ c. IsNamed (non_empty options.name) c v w') (sym same) named)
  IsPut-ok piece w w' cid token (v, err x) e h = cc

  token_ok :
      (piece : AnyPiece) (w w' : W) (cid : String) (made : Result NodeFailure Token)
      → token_for session options.access_token ≡ made
      → after
          (λ token.
            bind
              (put_piece session apis bucket_id options
                (meta_of session apis bucket_id options token)
                piece)
              (finish session apis bucket_id options))
          (w, made)
        ≡ (w', ok cid)
      → (token : Token) × (token_for session options.access_token ≡ ok token)
        × IsPut piece w w' cid token
  token_ok piece w w' cid (ok token) e h = (token, e, IsPut-ok piece w w' cid token _ refl h)
  token_ok piece w w' cid (err x) e h = cc

  -- A CID is returned only if the node's token was made, the content was put, and then, where the
  -- options have a name, the name was recorded; the CID is the text of the bytes that the node
  -- answered when the content was put.
  pub store_piece-IsPut :
      (piece : AnyPiece) (w w' : W) (cid : String)
      → store_piece session apis bucket_id options piece w ≡ (w', ok cid)
      → (token : Token) × (token_for session options.access_token ≡ ok token)
        × IsPut piece w w' cid token
  unfolding store_piece
  store_piece-IsPut piece w w' cid h = token_ok piece w w' cid _ refl h
