-- ===== src/StorageNode/Names.antt =====
-- Names and CIDs in the operations of packages/ddc/src/nodes/StorageNode.ts.
use cere_ddc_sdk_js.Common.{
  ℕ, ◌≡◌, refl, sym, ap, ◌∙◌, subst, true, false, Option, none, some, String, Result, ok, err,
  string_eq, ◌===◌,
}
use cere_ddc_sdk_js.Streams.{Bytes}
use cere_ddc_sdk_js.Cid.{Base32, Cid, text, raw, to_bytes, to_string, is_cid}
use cere_ddc_sdk_js.Auth.{Token}
use cere_ddc_sdk_js.StorageNode.{
  NodeFailure, OperationOptions, CnsRecord, ApiRecord, RequestMeta, Apis, Session, Range, after,
  bind, thrown, file_failed, cns_failed, or_throw, non_empty, AnyPiece, token_for, store_cns_record,
  get_cns_record, resolve_name, read_piece, meta_of, store_piece, bad_cid,
}
use cere_ddc_sdk_js.StorageNode.Stored.{thrown_ok, store_piece-IsPut, IsNamed}

is_cid-bytes :
    (base32 : Base32) (cid : Cid) (b : Option Bytes)
    → to_bytes base32 cid ≡ b
    → is_cid base32 cid ≡ true
    → (found : Bytes) × (to_bytes base32 cid ≡ some found)
unfolding is_cid
is_cid-bytes base32 cid none e h = cc (rw (e) at h)
is_cid-bytes base32 cid (some b) e h = (b, e)

module _ (session : Session) {W : Type 0} (apis : Apis W) (bucket_id : ℕ)
    (options : OperationOptions) where
  -- A piece that is read by its CID is asked for in one call of the file API, by the bytes of the
  -- CID; the name service is not asked.
  pub read_piece_by_cid :
      (range : Option Range) (cid : String) (token : Token) (w : W)
      → is_cid session.base32 (text cid) ≡ true
      → token_for session options.access_token ≡ ok token
      → (b : Bytes) × (to_bytes session.base32 (text cid) ≡ some b)
        × (read_piece session apis bucket_id options range cid w
            ≡ after
                (λ body v. (v, ok (text cid, body)))
                (thrown file_failed
                  (apis.get_file (meta_of session apis bucket_id options token) b range w)))
  unfolding read_piece
  read_piece_by_cid range cid token w h t =
      let (b, e) = is_cid-bytes session.base32 (text cid) _ refl h in
      (b, e, rw (t) (rw (h) (rw (e) refl)))

  -- What a call of `storeCnsRecord` that does not throw has done.
  abbrev pub IsRecorded : CnsRecord → ApiRecord → W → W → Type 0
  IsRecorded r a v w' =
      (token : Token) × (b : Bytes) × (token_for session options.access_token ≡ ok token)
      × (to_bytes session.base32 (text r.cid) ≡ some b)
      × (apis.put_record (meta_of session apis bucket_id options token)
            (record { name = r.name; cid = b }) v
          ≡ (w', ok a))

  bytes_ok :
      (r : CnsRecord) (a : ApiRecord) (v w' : W) (token : Token) (b : Option Bytes)
      → token_for session options.access_token ≡ ok token
      → to_bytes session.base32 (text r.cid) ≡ b
      → after
          (λ cid w. thrown cns_failed (
            apis.put_record
              (meta_of session apis bucket_id options token)
              (record { name = r.name; cid = cid })
              w))
          (v, or_throw (bad_cid r.cid) b)
        ≡ (w', ok a)
      → IsRecorded r a v w'
  bytes_ok r a v w' token none t e h = cc
  bytes_ok r a v w' token (some b) t e h = (token, b, t, e, thrown_ok _ _ w' a h)

  token_ok :
      (r : CnsRecord) (a : ApiRecord) (v w' : W) (made : Result NodeFailure Token)
      → token_for session options.access_token ≡ made
      → after
          (λ token.
            bind
              (λ w. (w, or_throw (bad_cid r.cid) (to_bytes session.base32 (text r.cid))))
              (λ cid w. thrown cns_failed (
                apis.put_record
                  (meta_of session apis bucket_id options token)
                  (record { name = r.name; cid = cid })
                  w)))
          (v, made)
        ≡ (w', ok a)
      → IsRecorded r a v w'
  token_ok r a v w' (ok token) t h = bytes_ok r a v w' token _ t refl h
  token_ok r a v w' (err x) t h = cc

  store_cns_record-IsRecorded :
      (r : CnsRecord) (a : ApiRecord) (v w' : W)
      → store_cns_record session apis bucket_id options r v ≡ (w', ok a)
      → IsRecorded r a v w'
  unfolding store_cns_record
  store_cns_record-IsRecorded r a v w' h = token_ok r a v w' _ refl h

  -- The name service returns a record that was put just before.
  abbrev pub Remembers : Type 0
  Remembers =
      (meta : RequestMeta) (r a : ApiRecord) (v w' : W)
      → apis.put_record meta r v ≡ (w', ok a)
      → (u : W) × (apis.get_record meta r.name w' ≡ (u, ok (some r)))

  named_resolves :
      (name cid : String) (b : Bytes) (v w' : W)
      → Remembers
      → is_cid session.base32 (text name) ≡ false
      → cid ≡ to_string session.base32 (raw b)
      → IsNamed session apis bucket_id options (some name) cid v w'
      → (u : W) × (resolve_name session apis bucket_id options name w' ≡ (u, ok (text cid)))
  unfolding resolve_name get_cns_record to_bytes to_string
  named_resolves name cid b v w' remembers no_cid text_of (a, e) =
      let (token, found, t, bytes_of, put) =
        store_cns_record-IsRecorded (record { cid = cid; name = name }) a v w' e in
      let (u, got) = remembers _ _ a v w' put in
      let same : some found ≡ some b =
        sym bytes_of ∙ ap session.base32.decode text_of ∙ session.base32.decode-encode b in
      let back : session.base32.encode found ≡ cid =
        ap session.base32.encode (cc same) ∙ sym text_of in
      (u, rw (no_cid) (rw (t) (rw (got) (ap (λ c. (u, ok (text c))) back))))

  -- Where the name service remembers records: what is stored under a name that is not empty and is
  -- no CID is found under that name, by the CID that storing returned.
  pub resolve_name-store_piece :
      (piece : AnyPiece) (name cid : String) (w w' : W)
      → Remembers
      → options.name ≡ some name
      → (name === "") ≡ false
      → is_cid session.base32 (text name) ≡ false
      → store_piece session apis bucket_id options piece w ≡ (w', ok cid)
      → (u : W) × (resolve_name session apis bucket_id options name w' ≡ (u, ok (text cid)))
  resolve_name-store_piece piece name cid w w' remembers n full no_cid h =
      let (token, t, (b, v, p, text_of, named)) =
        store_piece-IsPut session apis bucket_id options piece w w' cid h in
      let given : non_empty options.name ≡ some name = rw (n) (rw (full) refl) in
      named_resolves name cid b v w' remembers no_cid text_of
        (subst (λ o. IsNamed session apis bucket_id options o cid v w') given named)
