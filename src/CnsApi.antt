-- ===== src/CnsApi.antt =====
-- packages/ddc/src/CnsApi/CnsApi.ts: records of names, signed when they are put. The RPC calls and the
-- binary form of a record are arguments.
pub mod Records
mod Tests
use cere_ddc_sdk_js.Common.{
  ℕ, length, Bool, true, false, ◌&&◌, Option, none, some, List, String, Result, ok, err, string_eq,
  ◌===◌, if◌then◌else◌,
}
use cere_ddc_sdk_js.Streams.{Bytes}
use cere_ddc_sdk_js.Nodes.{Thrown, RpcError, unknown, status_name, as_rpc_error}
use cere_ddc_sdk_js.Auth.{
  Token, AuthError, AddressCodec, Signer, SignerType, ed25519, sr25519, Algorithm, alg_ed_25519,
  alg_sr_25519, ApiSignature, create_signature,
}
use cere_ddc_sdk_js.Activity.{
  Environment, Moment, RpcMeta, ActivityError, store, get, create_rpc_meta, set_cache_control,
  with_activity,
}
use cere_ddc_sdk_js.Auth.Sdk.{Registry, maybe_sdk_signer}

-- `Record` of the RPC messages.
pub record ProtoRecord : Type 0 where
  pub name : String
  pub cid : Bytes
  pub ttl : Option ℕ
  pub signature : Option ApiSignature

-- `Signature` of the application: the signer as an address.
pub record Signature : Type 0 where
  pub algorithm : SignerType
  pub signer : String
  pub value : Bytes

-- `Omit<Record, 'signature'>`
pub record RecordFields : Type 0 where
  pub name : String
  pub cid : Bytes
  pub ttl : Option ℕ

-- `Record`
pub record Record : Type 0 where
  pub name : String
  pub cid : Bytes
  pub ttl : Option ℕ
  pub signature : Signature

pub data CnsError : Type 0 where
  -- 'Unnable to store CNS record. Signer required!'
  no_signer : CnsError
  signing_failed : AuthError → CnsError
  activity_failed : ActivityError → CnsError
  cns_failed : Thrown → CnsError

-- `mapSignature`
abbrev pub signer_type : Algorithm → SignerType
signer_type alg_sr_25519 = sr25519
signer_type alg_ed_25519 = ed25519

abbrev pub map_signature : AddressCodec → ApiSignature → Signature
map_signature codec s = record {
  algorithm = signer_type s.algorithm;
  signer = codec.encode_address s.signer;
  value = s.value;
}

-- The RPC calls `put` and `get`, with their metadata and the bucket.
pub record CnsCalls (W : Type 0) : Type 0 where
  pub put : RpcMeta → ℕ → ProtoRecord → W → W × Result Thrown (Unit {0})
  pub get : RpcMeta → ℕ → String → W → W × Result Thrown (Option ProtoRecord)

-- `error instanceof RpcError && error.code === … && error.message === 'no result'`
abbrev pub is_no_result : Option RpcError → Bool
is_no_result none = false
is_no_result (some e) = e.code === status_name unknown && e.message === "no result"

-- `{ ...record, signature }` of a request and of the application
abbrev pub signed_proto : RecordFields → ApiSignature → ProtoRecord
signed_proto r s = record { name = r.name; cid = r.cid; ttl = r.ttl; signature = some s }

abbrev pub stored_record : AddressCodec → RecordFields → ApiSignature → Record
stored_record codec r s = record {
  name = r.name;
  cid = r.cid;
  ttl = r.ttl;
  signature = map_signature codec s;
}

-- A record without a signature is none.
abbrev pub signed_record : AddressCodec → ProtoRecord → Option ApiSignature → Option Record
signed_record codec r none = none
signed_record codec r (some s) =
    some (stored_record codec (record { name = r.name; cid = r.cid; ttl = r.ttl }) s)

abbrev pub found_record : AddressCodec → Option ProtoRecord → Option Record
found_record codec none = none
found_record codec (some r) = signed_record codec r r.signature

abbrev pub put_result :
    {W : Type 0} → Record → W × Result Thrown (Unit {0}) → W × Result CnsError Record
put_result r (w, ok _) = (w, ok r)
put_result r (w, err e) = (w, err (cns_failed e))

-- The `try` of `getRecord`, and what follows it.
abbrev pub get_result :
    {W : Type 0}
    → AddressCodec
    → W × Result Thrown (Option ProtoRecord)
    → W × Result CnsError (Option Record)
get_result codec (w, ok r) = (w, ok (found_record codec r))
get_result codec (w, err e) =
    if is_no_result (as_rpc_error e) then (w, ok none) else (w, err (cns_failed e))

module _ {W : Type 0} (env : Environment) (to_binary : RecordFields → Bytes)
    (calls : CnsCalls W) where
  -- `putRecord` after its signature and its activity request
  abbrev pub put_signed :
      ℕ
      → RecordFields
      → Result AuthError ApiSignature
      → Result ActivityError RpcMeta
      → W
      → W × Result CnsError Record
  put_signed bucket r (err e) _ w = (w, err (signing_failed e))
  put_signed bucket r (ok s) (err e) w = (w, err (activity_failed e))
  put_signed bucket r (ok s) (ok meta) w =
      put_result (stored_record env.codec r s) (calls.put meta bucket (signed_proto r s) w)

  -- `putRecord`, with the signer of the options. Its activity request is signed without the token.
  unfoldable pub put_record :
      Option Signer
      → Moment
      → Option Token
      → ℕ
      → RecordFields
      → Option String
      → W
      → W × Result CnsError Record
  unfolding create_signature
  put_record none moment token bucket r correlation_id w = (w, err no_signer)
  put_record (some signer) moment token bucket r correlation_id w =
      put_signed bucket r
        (create_signature (maybe_sdk_signer env.codec signer env.registry token) (to_binary r))
        (with_activity env moment
          (record {
            request_id = none;
            request_type = store;
            bucket_id = bucket;
            id = none;
            offset = none;
            size = some (length (to_binary r));
          })
          (some signer) none (create_rpc_meta env moment correlation_id token))
        w

  abbrev pub get_requested :
      ℕ → String → Result ActivityError RpcMeta → W → W × Result CnsError (Option Record)
  get_requested bucket name (err e) w = (w, err (activity_failed e))
  get_requested bucket name (ok meta) w = get_result env.codec (calls.get meta bucket name w)

  -- The metadata of `getRecord`; an activity request is made only if there is a signer.
  abbrev pub get_meta :
      Option Signer
      → Moment
      → Option Token
      → ℕ
      → Option String
      → Bool
      → Result ActivityError RpcMeta
  get_meta signer moment token bucket correlation_id no_cache =
      with_activity env moment
        (record {
          request_id = none;
          request_type = get;
          bucket_id = bucket;
          id = none;
          offset = none;
          size = none;
        })
        signer token (set_cache_control no_cache (create_rpc_meta env moment correlation_id token))

  -- `getRecord`
  unfoldable pub get_record :
      Option Signer
      → Moment
      → Option Token
      → ℕ
      → String
      → Option String
      → Bool
      → W
      → W × Result CnsError (Option Record)
  unfolding status_name
  get_record signer moment token bucket name correlation_id no_cache w =
      get_requested bucket name (get_meta signer moment token bucket correlation_id no_cache) w
