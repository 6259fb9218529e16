-- ===== src/StorageNode/Reads.antt =====
-- What a reading of packages/ddc/src/nodes/StorageNode.ts has done when it returns, and what its
-- stream can be relied on for, over the APIs of the constructor.
use mathlib.Core.List.{flatten}
use cere_ddc_sdk_js.Common.{
  not, ◌||◌, or_else, ℕ, ◌≡◌, refl, ap, ◌∙◌, subst, Bool, true, false, Option, none, some, List,
  String, Result, ok, err,
}
use cere_ddc_sdk_js.Streams.{Bytes}
use cere_ddc_sdk_js.Cid.{Cid, to_bytes, to_string}
use cere_ddc_sdk_js.Auth.{Token}
use cere_ddc_sdk_js.Nodes.{Thrown}
use cere_ddc_sdk_js.Activity.{RpcMeta}
use cere_ddc_sdk_js.FileApi.{FileError, Response, Transfer, read_responses}
use cere_ddc_sdk_js.FileApi.Calls.{
  CallParams, FileRequest, FileCalls, get_with, get_file, options_of, streamed,
}
use cere_ddc_sdk_js.FileApi.Reading.{proved_by, read_responses_authentic}
use cere_ddc_sdk_js.StorageNode.{
  NodeFailure, OperationOptions, Apis, Session, Range, after, bind, thrown, or_throw, bad_cid,
  file_failed, meta_of, cid_bytes, resolve_name, read_piece,
}
use cere_ddc_sdk_js.StorageNode.Wired.{
  Packages, Server, NodeConfig, file_options, call_params, apis_of,
}

module _ (session : Session) {W : Type 0} (apis : Apis W) (bucket_id : ℕ)
    (options : OperationOptions) (range : Option Range) where
  -- The file API was asked for the bytes of the CID, and gave the stream.
  abbrev pub IsRead : Cid → Transfer → W → Type 0
  IsRead cid transfer w' =
      (token : Token) × (b : Bytes) × (v : W) × (to_bytes session.base32 cid ≡ some b)
      × (apis.get_file (meta_of session apis bucket_id options token) b range v ≡ (w', ok transfer))

  -- The steps of `readPiece` after its token.
  abbrev file_of : Token → Cid → Bytes → W → W × Result NodeFailure (Cid × Transfer)
  file_of token found b =
      bind
        (λ w.
          thrown file_failed
            (apis.get_file (meta_of session apis bucket_id options token) b range w))
        (λ body w. (w, ok (found, body)))

  abbrev found_file : Token → Cid → W → W × Result NodeFailure (Cid × Transfer)
  found_file token found =
      bind (λ w. (w, cid_bytes session apis bucket_id options found)) (file_of token found)

  file-IsRead :
      (token : Token) (cid found : Cid) (b : Bytes) (transfer : Transfer) (v w' : W)
      (got : W × Result FileError Transfer)
      → to_bytes session.base32 found ≡ some b
      → apis.get_file (meta_of session apis bucket_id options token) b range v ≡ got
      → after {B = Cid × Transfer} (λ body u. (u, ok (found, body))) (thrown file_failed got)
        ≡ (w', ok (cid, transfer))
      → IsRead cid transfer w'
  file-IsRead token cid found b transfer v w' (u, ok body) e g h =
      (token, b, v, subst (λ c. to_bytes session.base32 c ≡ some b) (cc h) e, cc)
  file-IsRead token cid found b transfer v w' (u, err x) e g h = cc

  bytes-IsRead :
      (token : Token) (cid found : Cid) (transfer : Transfer) (v w' : W) (b : Option Bytes)
      → to_bytes session.base32 found ≡ b
      → after (file_of token found) (v, or_throw (bad_cid (to_string session.base32 found)) b)
        ≡ (w', ok (cid, transfer))
      → IsRead cid transfer w'
  bytes-IsRead token cid found transfer v w' none e h = cc
  bytes-IsRead token cid found transfer v w' (some b) e h =
      file-IsRead token cid found b transfer v w' _ e refl h

  resolved-IsRead :
      (token : Token) (cid : Cid) (transfer : Transfer) (w' : W) (r : W × Result NodeFailure Cid)
      → after (found_file token) r ≡ (w', ok (cid, transfer))
      → IsRead cid transfer w'
  resolved-IsRead token cid transfer w' (v, ok found) h =
      bytes-IsRead token cid found transfer v w' _ refl h
  resolved-IsRead token cid transfer w' (v, err x) h = cc

  token-IsRead :
      (cid_or_name : String) (cid : Cid) (transfer : Transfer) (w w' : W)
      (made : Result NodeFailure Token)
      → after
          (λ token.
            bind (resolve_name session apis bucket_id options cid_or_name) (found_file token))
          (w, made)
        ≡ (w', ok (cid, transfer))
      → IsRead cid transfer w'
  token-IsRead cid_or_name cid transfer w w' (ok token) h =
      resolved-IsRead token cid transfer w'
        (resolve_name session apis bucket_id options cid_or_name w) h
  token-IsRead cid_or_name cid transfer w w' (err x) h = cc

  pub read_piece-IsRead :
      (cid_or_name : String) (cid : Cid) (transfer : Transfer) (w w' : W)
      → read_piece session apis bucket_id options range cid_or_name w ≡ (w', ok (cid, transfer))
      → IsRead cid transfer w'
  unfolding read_piece
  read_piece-IsRead cid_or_name cid transfer w w' h = token-IsRead cid_or_name cid transfer w w' _ h

-- No proof of the service holds something.
abbrev pub ProvesNothing : {W : Type 0} → FileCalls W → Type 0
ProvesNothing {W} calls =
    (meta : RpcMeta) (request : FileRequest) (w w' : W) (responses : List Response)
    (last : Option Thrown)
    → calls.get_file meta request w ≡ (w', ok (responses, last))
    → proved_by false responses ≡ false

pub any_or_true : (b : Bool) → (b || true) ≡ true
any_or_true true = refl
any_or_true false = refl

module _ (packages : Packages) (config : NodeConfig) (session : Session) {W : Type 0}
    (server : Server W) where
  abbrev IsAuthentic : Bytes → Transfer → Type 0
  IsAuthentic b transfer =
      transfer.outcome ≡ ok tt → packages.same_hash b (flatten transfer.yielded) ≡ true

  answered-IsAuthentic :
      (params : CallParams) (b : Bytes) (transfer : Transfer) (w' : W)
      (answer : W × Result Thrown (List Response × Option Thrown))
      → config.authenticate ≡ some true
      → ((u : W) (responses : List Response) (last : Option Thrown)
          → answer ≡ (u, ok (responses, last))
          → proved_by false responses ≡ false)
      → streamed packages.env packages.multipart_binary packages.same_hash
          (file_options packages config session.signer)
          params
          server.files
          b
          none
          answer
        ≡ (w', ok transfer)
      → IsAuthentic b transfer
  answered-IsAuthentic params b transfer w' (u, err e) on nothing h fine = cc
  answered-IsAuthentic params b transfer w' (u, ok (responses, last)) on nothing h fine =
      let options =
        options_of packages.env packages.multipart_binary packages.same_hash
          (file_options packages config session.signer) params server.files none in
      let same : read_responses (packages.same_hash b) options last responses ≡ transfer = cc h in
      subst (λ (t : Transfer). packages.same_hash b (flatten t.yielded) ≡ true) same
        (read_responses_authentic (packages.same_hash b) options last responses
          (any_or_true (not (or_else config.enable_acks true)))
          (ap (λ (o : Option Bool). or_else o false) on) refl (nothing u responses last refl)
          (ap (λ (t : Transfer). t.outcome) same ∙ fine))

  requested-IsAuthentic :
      (params : CallParams) (bucket_id : ℕ) (b : Bytes) (transfer : Transfer) (w w' : W)
      (made : Result FileError RpcMeta)
      → config.authenticate ≡ some true
      → ProvesNothing server.files
      → get_with packages.env packages.multipart_binary packages.same_hash
          (file_options packages config session.signer)
          params
          server.files
          bucket_id
          b
          none
          made
          w
        ≡ (w', ok transfer)
      → IsAuthentic b transfer
  requested-IsAuthentic params bucket_id b transfer w w' (err e) on nothing h = cc
  requested-IsAuthentic params bucket_id b transfer w w' (ok meta) on nothing h =
      answered-IsAuthentic params b transfer w' _ on
        (λ u responses last e. nothing meta _ w u responses last e) h

  -- A node that is configured to authenticate, over a service that sends no proof that holds
  -- something: where a whole piece is read by its CID or its name, and the stream ends without an
  -- error, the bytes that the reader got have the hash of the CID that the response names.
  pub read_piece-IsAuthentic :
      (bucket_id : ℕ) (options : OperationOptions) (cid_or_name : String) (cid : Cid)
      (transfer : Transfer) (w w' : W)
      → config.authenticate ≡ some true
      → ProvesNothing server.files
      → read_piece session
          (apis_of packages config session.signer server)
          bucket_id
          options
          none
          cid_or_name
          w
        ≡ (w', ok (cid, transfer))
      → transfer.outcome ≡ ok tt
      → (b : Bytes) × (to_bytes session.base32 cid ≡ some b)
        × (packages.same_hash b (flatten transfer.yielded) ≡ true)
  unfolding apis_of get_file
  read_piece-IsAuthentic bucket_id options cid_or_name cid transfer w w' on nothing h fine =
      let apis = apis_of packages config session.signer server in
      let (token, b, v, e, got) =
        read_piece-IsRead session apis bucket_id options none cid_or_name cid transfer w w' h in
      let params =
        call_params packages config session.signer (server.clock v)
          (meta_of session apis bucket_id options token) in
      (b, e, requested-IsAuthentic params bucket_id b transfer v w' _ on nothing got fine)
