-- ===== src/FileApi/Calls.antt =====
-- The operations of the class in packages/ddc/src/FileApi/FileApi.ts: their metadata, their activity
-- requests and their RPC calls.
use cere_ddc_sdk_js.Common.{
  ℕ, ◌+◌, ◌-◌, Bool, Option, none, some, List, String, Result, ok, err, ltb, length, is_defined,
  if◌then◌else◌,
}
use cere_ddc_sdk_js.Streams.{Bytes, Content, get_content_size, content_body}
use cere_ddc_sdk_js.Nodes.{Thrown}
use cere_ddc_sdk_js.Auth.{Signer, Token}
use cere_ddc_sdk_js.Activity.{
  Environment, Moment, ActivityFields, RpcMeta, ActivityError, store, get, create_rpc_meta,
  with_activity,
}
use cere_ddc_sdk_js.FileApi.{
  FileError, activity_failed, call_failed, negative_size, RawCall, Response, Transfer, ReadOptions,
  read_options, ceil_to_power_of_2, guard_size, put_sized, read_responses,
}

-- `FileApiOptions`
pub record FileApiOptions : Type 0 where
  pub signer : Option Signer
  pub authenticate : Option Bool
  pub enable_acks : Option Bool

-- `AuthMetaParams & CorrelationMetaParams`, and the moment of the call.
pub record CallParams : Type 0 where
  pub moment : Moment
  pub token : Option Token
  pub correlation_id : Option String

-- `PutMultiPartPieceRequest`
pub record MultipartRequest : Type 0 where
  pub bucket_id : ℕ
  pub total_size : ℕ
  pub part_size : ℕ
  pub part_hashes : List Bytes

-- `PutRawPieceRequest_Metadata`, without its size.
pub record RawMetadata : Type 0 where
  pub bucket_id : ℕ
  pub is_multipart : Bool
  pub offset : Option ℕ

-- `GetFileRequest_Request`; a range has its start and its end, which it includes.
pub record FileRequest : Type 0 where
  pub bucket_id : ℕ
  pub cid : Bytes
  pub range : Option (ℕ × ℕ)
  pub authenticate : Bool

-- The RPC calls; a reading gives its responses, and the error that ends them if there is one.
pub record FileCalls (W : Type 0) : Type 0 where
  pub put_multipart_piece : RpcMeta → MultipartRequest → W → W × Result Thrown Bytes
  pub put_raw_piece : RpcMeta → RawCall W RawMetadata
  pub get_file : RpcMeta → FileRequest → W → W × Result Thrown (List Response × Option Thrown)

-- `request.range && request.range.end - request.range.start + 1`; the binary form of a request
-- throws for a size below 0.
abbrev pub range_size : Option (ℕ × ℕ) → Result FileError (Option ℕ)
range_size none = ok none
range_size (some (first, last)) =
    if ltb (last + 1) first then err negative_size else ok (some (last + 1 - first))

abbrev pub of_activity : {A : Type 0} → Result ActivityError A → Result FileError A
of_activity (ok a) = ok a
of_activity (err e) = err (activity_failed e)

module _ (env : Environment) (multipart_binary : MultipartRequest → Bytes)
    (same_hash : Bytes → Bytes → Bool) (options : FileApiOptions) (params : CallParams) where
  -- The metadata of a call; an activity request is made only if there is a signer.
  abbrev pub requested : ActivityFields → Result ActivityError RpcMeta
  requested fields =
      with_activity env params.moment fields options.signer params.token
        (create_rpc_meta env params.moment params.correlation_id params.token)

  abbrev pub store_fields : ℕ → ℕ → ActivityFields
  store_fields bucket_id size = record {
    request_id = none;
    request_type = store;
    bucket_id = bucket_id;
    id = none;
    offset = none;
    size = some size;
  }

  abbrev pub range_start : Option (ℕ × ℕ) → Option ℕ
  range_start none = none
  range_start (some (first, _)) = some first

  abbrev pub get_fields : ℕ → Bytes → Option (ℕ × ℕ) → Option ℕ → ActivityFields
  get_fields bucket_id cid range size = record {
    request_id = some params.moment.request_id;
    request_type = get;
    bucket_id = bucket_id;
    id = some cid;
    offset = range_start range;
    size = size;
  }

  abbrev pub sized_meta :
      ℕ → Bytes → Option (ℕ × ℕ) → Result FileError (Option ℕ) → Result FileError RpcMeta
  sized_meta bucket_id cid range (err e) = err e
  sized_meta bucket_id cid range (ok size) =
      of_activity (requested (get_fields bucket_id cid range size))

  -- The metadata of a reading: the size of the range is asked for by the activity request only.
  abbrev pub get_meta : ℕ → Bytes → Option (ℕ × ℕ) → Result FileError RpcMeta
  get_meta bucket_id cid range = elim options.signer [
    | none ↦ ok (create_rpc_meta env params.moment params.correlation_id params.token)
    | some _ ↦ sized_meta bucket_id cid range (range_size range)
  ]

  module _ {W : Type 0} (calls : FileCalls W) where
    abbrev pub response_of : {A : Type 0} → W × Result Thrown A → W × Result FileError A
    response_of (w, ok a) = (w, ok a)
    response_of (w, err e) = (w, err (call_failed e))

    abbrev pub multipart_with :
        MultipartRequest → Result ActivityError RpcMeta → W → W × Result FileError Bytes
    multipart_with request (err e) w = (w, err (activity_failed e))
    multipart_with request (ok meta) w = response_of (
        calls.put_multipart_piece meta
          (record {
            bucket_id = request.bucket_id;
            total_size = request.total_size;
            part_size = ceil_to_power_of_2 request.part_size;
            part_hashes = request.part_hashes;
          })
          w)

    -- `putMultipartPiece`: its activity request has the size of the request as it was given.
    unfoldable pub put_multipart_piece : MultipartRequest → W → W × Result FileError Bytes
    unfolding ceil_to_power_of_2
    put_multipart_piece request w =
        multipart_with request
          (requested (store_fields request.bucket_id (length (multipart_binary request)))) w

    abbrev pub raw_with :
        RawMetadata
        → Option (List Bytes)
        → ℕ
        → Result ActivityError RpcMeta
        → W
        → W × Result FileError Bytes
    raw_with metadata body size (err e) w = (w, err (activity_failed e))
    raw_with metadata body size (ok meta) w =
        put_sized (calls.put_raw_piece meta) metadata size body w

    -- `putRawPiece`, for content with the body and the size.
    abbrev pub put_body :
        RawMetadata → Option (List Bytes) → Option ℕ → W → W × Result FileError Bytes
    put_body metadata body =
        guard_size (λ n. raw_with metadata body n (requested (store_fields metadata.bucket_id n)))

    -- `putRawPiece`, with the size of the metadata.
    unfoldable pub put_raw_piece : RawMetadata → Option ℕ → Content → W → W × Result FileError Bytes
    unfolding put_sized get_content_size content_body
    put_raw_piece metadata size content =
        put_body metadata (content_body content) (get_content_size content size)

    abbrev pub options_of : Option (ℕ × ℕ) → ReadOptions
    options_of = read_options (is_defined options.signer) options.enable_acks options.authenticate

    abbrev pub streamed :
        Bytes
        → Option (ℕ × ℕ)
        → W × Result Thrown (List Response × Option Thrown)
        → W × Result FileError Transfer
    streamed cid range (w, err e) = (w, err (call_failed e))
    streamed cid range (w, ok (responses, last)) =
        (w, ok (read_responses (same_hash cid) (options_of range) last responses))

    abbrev pub get_with :
        ℕ → Bytes → Option (ℕ × ℕ) → Result FileError RpcMeta → W → W × Result FileError Transfer
    get_with bucket_id cid range (err e) w = (w, err e)
    get_with bucket_id cid range (ok meta) w = streamed cid range (
        calls.get_file meta
          (record {
            bucket_id = bucket_id;
            cid = cid;
            range = range;
            authenticate = (options_of range).authenticate;
          })
          w)

    -- `getFile`, and the stream that it returns as it is read to the end.
    unfoldable pub get_file : ℕ → Bytes → Option (ℕ × ℕ) → W → W × Result FileError Transfer
    unfolding read_responses
    get_file bucket_id cid range w = get_with bucket_id cid range (get_meta bucket_id cid range) w
