-- ===== src/Activity.antt =====
-- packages/ddc/src/activity and the two createRpcMeta.ts of packages/ddc/src: the signed activity
-- requests, and the metadata that goes with an RPC call.
mod Tests
use cere_ddc_sdk_js.Common.{
  Bool, true, false, ℕ, Option, none, some, List, [], String, Result, ok, err, or_else, string_eq,
  ◌===◌, if◌then◌else◌,
}
use cere_ddc_sdk_js.Streams.{Bytes}
use cere_ddc_sdk_js.Auth.{AuthError, AddressCodec, Signer, Token, ApiSignature, create_signature}
use cere_ddc_sdk_js.Auth.Sdk.{Registry, maybe_sdk_signer}

-- `ActivityRequest_RequestType`
pub data RequestType : Type 0 where
  store get : RequestType

-- `ActivityRequest_ContentType`
pub data ContentType : Type 0 where
  piece segment merkle_tree : ContentType

-- `ActivityRequest`; no request of the SDK has a parent.
pub record ActivityRequest : Type 0 where
  pub request_id : String
  pub request_type : RequestType
  pub content_type : ContentType
  pub bucket_id : ℕ
  pub id : Bytes
  pub offset : ℕ
  pub size : ℕ
  pub timestamp : ℕ
  pub signature : Option ApiSignature

-- The fields of a request that a caller of `createActivityRequest` gives.
pub record ActivityFields : Type 0 where
  pub request_id : Option String
  pub request_type : RequestType
  pub bucket_id : ℕ
  pub id : Option Bytes
  pub offset : Option ℕ
  pub size : Option ℕ

-- What the clock and the two calls of `uuid` give during a call.
pub record Moment : Type 0 where
  pub now : ℕ
  pub request_id : String
  pub correlation_id : String

-- What the packages give, and the registry of random signers: the address codec, the binary form of
-- a request, base64, and the text of a token.
pub record Environment : Type 0 where
  pub codec : AddressCodec
  pub registry : Registry
  pub request_binary : ActivityRequest → Bytes
  pub base64 : Bytes → String
  pub token_text : Token → String

pub data ActivityError : Type 0 where
  -- 'Activity capturing cannot be enabled. Signer requred!'
  signer_required : ActivityError
  signing_failed : AuthError → ActivityError

-- `ActivityRequest.create({ timestamp, requestId, ...request, contentType })`
abbrev pub unsigned_request : Moment → ActivityFields → ActivityRequest
unsigned_request moment fields = record {
  request_id = or_else fields.request_id moment.request_id;
  request_type = fields.request_type;
  content_type = piece;
  bucket_id = fields.bucket_id;
  id = or_else fields.id [];
  offset = or_else fields.offset 0;
  size = or_else fields.size 0;
  timestamp = moment.now;
  signature = none;
}

-- `activityRequest.signature = …`
abbrev pub signed_request : ApiSignature → ActivityRequest → ActivityRequest
signed_request s r = record {
  request_id = r.request_id;
  request_type = r.request_type;
  content_type = r.content_type;
  bucket_id = r.bucket_id;
  id = r.id;
  offset = r.offset;
  size = r.size;
  timestamp = r.timestamp;
  signature = some s;
}

abbrev pub encoded_request :
    Environment → ActivityRequest → Result AuthError ApiSignature → Result ActivityError String
encoded_request env r (ok s) = ok (env.base64 (env.request_binary (signed_request s r)))
encoded_request env r (err e) = err (signing_failed e)

-- `createActivityRequest`
abbrev pub create_activity_request :
    Environment
    → Moment
    → ActivityFields
    → Option Signer
    → Option Token
    → Result ActivityError String
create_activity_request env moment fields none token = err signer_required
create_activity_request env moment fields (some signer) token =
    encoded_request env (unsigned_request moment fields) (
      create_signature (maybe_sdk_signer env.codec signer env.registry token)
        (env.request_binary (unsigned_request moment fields)))

-- The metadata of an RPC call, by its keys `correlation-id`, `token`, `cache-control` and `request`.
pub record RpcMeta : Type 0 where
  pub correlation_id : String
  pub token : Option String
  pub cache_control : Option String
  pub request : Option String

-- `correlationId || uuid()`
abbrev pub correlation_of : Moment → Option String → String
correlation_of moment none = moment.correlation_id
correlation_of moment (some given) = if given === "" then moment.correlation_id else given

abbrev pub token_meta : Environment → Option Token → Option String
token_meta env none = none
token_meta env (some token) = some (env.token_text token)

-- `createCorrelationRpcMeta(correlationId, createAuthRpcMeta(token))`
abbrev pub create_rpc_meta : Environment → Moment → Option String → Option Token → RpcMeta
create_rpc_meta env moment correlation_id token = record {
  correlation_id = correlation_of moment correlation_id;
  token = token_meta env token;
  cache_control = none;
  request = none;
}

-- `if (cacheControl) meta['cache-control'] = cacheControl`: the option is 'no-cache' or not there.
abbrev pub set_cache_control : Bool → RpcMeta → RpcMeta
set_cache_control false meta = meta
set_cache_control true meta = record {
  correlation_id = meta.correlation_id;
  token = meta.token;
  cache_control = some "no-cache";
  request = meta.request;
}

-- `meta.request = …`
abbrev pub set_request : RpcMeta → Result ActivityError String → Result ActivityError RpcMeta
set_request meta (err e) = err e
set_request meta (ok text) = ok (record {
  correlation_id = meta.correlation_id;
  token = meta.token;
  cache_control = meta.cache_control;
  request = some text;
})

-- `if (signer) meta.request = await createActivityRequest(…)`
abbrev pub with_activity :
    Environment
    → Moment
    → ActivityFields
    → Option Signer
    → Option Token
    → RpcMeta
    → Result ActivityError RpcMeta
with_activity env moment fields none token meta = ok meta
with_activity env moment fields (some signer) token meta =
    set_request meta (create_activity_request env moment fields (some signer) token)
