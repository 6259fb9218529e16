-- ===== src/StorageNode.antt =====
-- packages/ddc/src/nodes/StorageNode.ts with the data of CnsRecord.ts: the operations of one storage
-- node over its three APIs, which may change the world. Wired has the APIs of the constructor;
-- `none` as a correlation id stands for a fresh one. An access token is given as its text; the option
-- for the cache control goes through unread and is left out.
pub mod Names
pub mod Stored
pub mod Reads
pub mod Kept
pub mod RoundTrip
pub mod Wired
mod Tests
mod WiredTests
use cere_ddc_sdk_js.Common.{
  ℕ, Bool, true, false, Option, none, some, List, [], ◌∷◌, String, Result, ok, err, or_else,
  string_eq, ◌===◌, if◌then◌else◌,
}
use cere_ddc_sdk_js.Streams.{Bytes}
use cere_ddc_sdk_js.Cid.{Base32, Cid, text, raw, to_bytes, to_string, is_cid}
use cere_ddc_sdk_js.Piece.{Piece, MultipartPiece, PieceError, size, is_part}
use cere_ddc_sdk_js.DagNode.{Link, Tag, DagNode, ApiLink, ApiNode}
use cere_ddc_sdk_js.FileApi.{FileError, Transfer}
use cere_ddc_sdk_js.CnsApi.{CnsError}
use cere_ddc_sdk_js.DagApi.{DagError}
use cere_ddc_sdk_js.Auth.{Token, AuthError, AddressCodec, Signer}
use cere_ddc_sdk_js.Auth.Sdk.{Registry, create_auth_token}

-- What an operation throws: while it makes its token, by one of the APIs, on a piece without a size, on a CID
-- that is no base32 text, and on a name that CNS does not know.
pub data NodeFailure : Type 0 where
  bad_access_token : String → NodeFailure
  auth_failed : AuthError → NodeFailure
  file_failed : FileError → NodeFailure
  dag_failed : DagError → NodeFailure
  cns_failed : CnsError → NodeFailure
  bad_piece : PieceError → NodeFailure
  bad_cid : String → NodeFailure
  -- `Cannot resolve CNS name: "${cidOrName}"`
  unknown_name : String → NodeFailure

-- `CorrelationOptions & NamingOptions & OperationAuthOptions`
pub record OperationOptions : Type 0 where
  pub access_token : Option String
  pub name : Option String
  pub correlation_id : Option String

-- `CnsRecord`, but for the signature of a response.
pub record CnsRecord : Type 0 where
  pub cid : String
  pub name : String

pub record ApiRecord : Type 0 where
  pub name : String
  pub cid : Bytes

pub record RequestMeta : Type 0 where
  pub bucket_id : ℕ
  pub token : Token
  pub correlation_id : Option String

pub record RawPieceMeta : Type 0 where
  pub is_multipart : Bool
  pub offset : Option ℕ
  pub size : ℕ

abbrev pub Range : Type 0
Range = ℕ × ℕ

-- The file, DAG and CNS APIs of the node.
pub record Apis (W : Type 0) : Type 0 where
  pub put_multipart_piece : RequestMeta → MultipartPiece → W → W × Result FileError Bytes
  -- The body of a piece is a content stream, and its size is in the metadata.
  pub put_raw_piece :
      RequestMeta → RawPieceMeta → Option (List Bytes) → W → W × Result FileError Bytes
  pub get_file : RequestMeta → Bytes → Option Range → W → W × Result FileError Transfer
  pub put_node : RequestMeta → ApiNode → W → W × Result DagError Bytes
  pub get_node : RequestMeta → Bytes → Option String → W → W × Result DagError (Option ApiNode)
  pub put_record : RequestMeta → ApiRecord → W → W × Result CnsError ApiRecord
  pub get_record : RequestMeta → String → W → W × Result CnsError (Option ApiRecord)

-- What the tokens of the node are made from; `root` is its settled root token, and `parse_token`
-- the form of a token as a text.
pub record Session : Type 0 where
  pub base32 : Base32
  pub codec : AddressCodec
  pub to_binary : Token → Bytes
  pub now : ℕ
  pub signer : Signer
  pub registry : Registry
  pub root : Result AuthError Token
  pub parse_token : String → Option Token

-- An operation on the world that may throw.
abbrev pub Run : Type 0 → Type 0 → Type 0
Run W A = W → W × Result NodeFailure A

abbrev pub after :
    {W A B : Type 0} → (A → Run W B) → W × Result NodeFailure A → W × Result NodeFailure B
after next (w, ok a) = next a w
after next (w, err e) = (w, err e)

abbrev pub bind : {W A B : Type 0} → Run W A → (A → Run W B) → Run W B
bind first next w = after next (first w)

-- An API throws what it throws.
abbrev pub thrown : {W E A : Type 0} → (E → NodeFailure) → W × Result E A → W × Result NodeFailure A
thrown failed (w, ok a) = (w, ok a)
thrown failed (w, err e) = (w, err (failed e))

abbrev pub or_throw : {A : Type 0} → NodeFailure → Option A → Result NodeFailure A
or_throw e none = err e
or_throw e (some a) = ok a

abbrev pub auth_result : Result AuthError Token → Result NodeFailure Token
auth_result (ok token) = ok token
auth_result (err e) = err (auth_failed e)

abbrev pub piece_size : Result PieceError ℕ → Result NodeFailure ℕ
piece_size (ok n) = ok n
piece_size (err e) = err (bad_piece e)

-- A name, or a correlation id, that is empty is none.
abbrev pub non_empty : Option String → Option String
non_empty none = none
non_empty (some s) = if s === "" then none else some s

-- `Piece | MultipartPiece`
pub data AnyPiece : Type 0 where
  single : Piece → AnyPiece
  multipart : MultipartPiece → AnyPiece

module _ (session : Session) where
  abbrev pub token_from : Option Token → Result NodeFailure Token
  token_from input = auth_result (
      create_auth_token session.codec session.base32 session.to_binary session.now session.signer
        session.registry input session.root)

  -- `createAuthToken(options)`, with `AuthToken.maybeToken`
  unfoldable pub token_for : Option String → Result NodeFailure Token
  token_for none = token_from none
  token_for (some access_token) = elim (session.parse_token access_token) [
    | none ↦ err (bad_access_token access_token)
    | some token ↦ token_from (some token)
  ]

  -- `mapDagNodeToAPI`
  unfoldable pub map_links : List Link → Result NodeFailure (List ApiLink)
  map_links [] = ok []
  map_links (link ∷ rest) =
      let later = map_links rest in
      elim (to_bytes session.base32 (text link.cid)) [
        | none ↦ err (bad_cid link.cid)
        | some b ↦ elim later [
          | err e ↦ err e
          | ok links ↦ ok (record { cid = b; size = link.size; name = link.name } ∷ links)
        ]
      ]

  -- The links of a `DagNodeResponse`.
  unfoldable pub response_links : List ApiLink → List Link
  response_links [] = []
  response_links (link ∷ rest) =
      record { cid = to_string session.base32 (raw link.cid); size = link.size; name = link.name }
      ∷ response_links rest

  module _ {W : Type 0} (apis : Apis W) (bucket_id : ℕ) (options : OperationOptions) where
    abbrev pub meta_of : Token → RequestMeta
    meta_of token = record {
      bucket_id = bucket_id;
      token = token;
      correlation_id = non_empty options.correlation_id;
    }

    -- `const token = await this.createAuthToken(options)`, and the rest with it.
    abbrev pub with_token : {A : Type 0} → (RequestMeta → Run W A) → Run W A
    with_token next w = after (λ token. next (meta_of token)) (w, token_for options.access_token)

    unfoldable pub store_cns_record : CnsRecord → Run W ApiRecord
    unfolding token_for
    store_cns_record cns_record = with_token (λ meta.
        bind
          (λ w.
            (w, or_throw (bad_cid cns_record.cid) (to_bytes session.base32 (text cns_record.cid))))
          (λ cid w.
            thrown cns_failed
              (apis.put_record meta (record { name = cns_record.name; cid = cid }) w)))

    abbrev pub record_response : Option ApiRecord → Option CnsRecord
    record_response none = none
    record_response (some r) =
        some (record { cid = to_string session.base32 (raw r.cid); name = r.name })

    unfoldable pub get_cns_record : String → Run W (Option CnsRecord)
    unfolding token_for
    get_cns_record name = with_token (λ meta.
        bind (λ w. thrown cns_failed (apis.get_record meta name w))
          (λ r w. (w, ok (record_response r))))

    abbrev pub resolved : String → Option CnsRecord → Run W Cid
    resolved name none w = (w, err (unknown_name name))
    resolved name (some r) w = (w, ok (text r.cid))

    unfoldable pub resolve_name : String → Run W Cid
    unfolding get_cns_record
    resolve_name cid_or_name =
        if is_cid session.base32 (text cid_or_name)
        then (λ w. (w, ok (text cid_or_name)))
        else bind (get_cns_record cid_or_name) (resolved cid_or_name)

    -- `if (options?.name) await this.storeCnsRecord(…)`
    abbrev pub store_name : Option String → String → Run W String
    store_name none cid w = (w, ok cid)
    store_name (some name) cid w =
        after (λ _ v. (v, ok cid)) (store_cns_record (record { cid = cid; name = name }) w)

    abbrev pub put_piece : RequestMeta → AnyPiece → Run W Bytes
    put_piece meta (multipart piece) w = thrown file_failed (apis.put_multipart_piece meta piece w)
    put_piece meta (single piece) w =
        after
          (λ n v. thrown file_failed (
            apis.put_raw_piece meta
              (record { is_multipart = is_part piece; offset = piece.offset; size = n }) piece.body
              v))
          (w, piece_size (size piece))

    -- What comes after the content is stored: its name, and its CID as a text.
    abbrev pub finish : Bytes → Run W String
    finish cid = store_name (non_empty options.name) (to_string session.base32 (raw cid))

    unfoldable pub store_piece : AnyPiece → Run W String
    unfolding store_cns_record
    store_piece piece = with_token (λ meta. bind (put_piece meta piece) finish)

    unfoldable pub store_dag_node : DagNode → Run W String
    unfolding store_cns_record map_links
    store_dag_node node = with_token (λ meta.
        bind (λ w. (w, map_links node.links))
          (λ links.
            bind
              (λ w. thrown dag_failed (
                apis.put_node meta
                  (record { node_data = node.data_buffer; links = links; tags = node.tags }) w))
              finish))

    -- `cid.toBytes()` of a resolved CID
    abbrev pub cid_bytes : Cid → Result NodeFailure Bytes
    cid_bytes cid = or_throw (bad_cid (to_string session.base32 cid)) (to_bytes session.base32 cid)

    -- The response has the resolved CID and the stream of the content, as it is read to the end.
    unfoldable pub read_piece : Option Range → String → Run W (Cid × Transfer)
    unfolding resolve_name
    read_piece range cid_or_name = with_token (λ meta. bind (resolve_name cid_or_name) (λ cid.
        bind (λ w. (w, cid_bytes cid))
          (λ b.
            bind (λ w. thrown file_failed (apis.get_file meta b range w))
              (λ body w. (w, ok (cid, body))))))

    abbrev pub node_response : Option ApiNode → Option DagNode
    node_response none = none
    node_response (some node) = some (record {
      data_buffer = node.node_data;
      links = response_links node.links;
      tags = node.tags;
    })

    unfoldable pub get_dag_node : Option String → String → Run W (Option DagNode)
    unfolding resolve_name response_links
    get_dag_node path cid_or_name = with_token (λ meta. bind (resolve_name cid_or_name) (λ cid.
        bind (λ w. (w, cid_bytes cid))
          (λ b.
            bind (λ w. thrown dag_failed (apis.get_node meta b path w))
              (λ node w. (w, ok (node_response node))))))
