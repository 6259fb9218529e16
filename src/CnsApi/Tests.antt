-- ===== src/CnsApi/Tests.antt =====
-- Runs of packages/ddc/src/CnsApi/CnsApi.ts on a service that keeps one record.
use cere_ddc_sdk_js.Common.{
  ◌≡◌, refl, subst, ◌===◌, ===_refl, false, Option, none, some, [], ◌∷◌, String, Result, ok, err,
  string_eq, if◌then◌else◌,
}
use cere_ddc_sdk_js.Streams.{Bytes}
use cere_ddc_sdk_js.Cid.Codec.{codec, encode}
use cere_ddc_sdk_js.Nodes.{Thrown, rpc_error}
use cere_ddc_sdk_js.Auth.{Signer, ed25519, alg_ed_25519, ApiSignature}
use cere_ddc_sdk_js.Activity.{Environment, Moment, RpcMeta}
use cere_ddc_sdk_js.CnsApi.{
  ProtoRecord, RecordFields, Record, no_signer, CnsCalls, put_record, get_record, stored_record,
}
use cere_ddc_sdk_js.CnsApi.Records.{Keeps, IsOf, IsReadBack, get_record-put_record}

abbrev env : Environment
env = record {
  codec = record { encode_address = encode; decode_address = codec.decode };
  registry = [];
  request_binary = λ r. r.id;
  base64 = encode;
  token_text = λ t. "token";
}

abbrev noon : Moment
noon = record { now = 12; request_id = "r"; correlation_id = "c" }

abbrev app : Signer
app = record {
  address = encode (1 ∷ []);
  public_key = 1 ∷ [];
  type = ed25519;
  sign_message = λ m. 9 ∷ m;
}

abbrev binary : RecordFields → Bytes
binary r = r.cid

abbrev Store : Type 0
Store = Option ProtoRecord

abbrev no_result : Thrown
no_result =
    rpc_error
      (record { message = "no result"; code = "UNKNOWN"; method_name = none; service_name = none })

abbrev found_in : Store → String → Result Thrown (Option ProtoRecord)
found_in none name = err no_result
found_in (some r) name = if r.name === name then ok (some r) else err no_result

abbrev service : CnsCalls Store
service = record {
  put = λ meta bucket r w. (some r, ok tt);
  get = λ meta bucket name w. (w, found_in w name);
}

service-Keeps : Keeps service
service-Keeps meta meta' bucket r w w' e =
    subst (λ s. (u : Store) × (service.get meta' bucket r.name s ≡ (u, ok (some r)))) (λ i. (e i).0)
      (some r, rw (===_refl r.name) refl)

abbrev fields : RecordFields
fields = record { name = "photo"; cid = 7 ∷ []; ttl = some 300 }

abbrev signature : ApiSignature
signature = record { algorithm = alg_ed_25519; signer = 1 ∷ []; value = 9 ∷ 7 ∷ [] }

abbrev photo : Record
photo = stored_record env.codec fields signature

abbrev stored : Store
stored = some (record { name = "photo"; cid = 7 ∷ []; ttl = some 300; signature = some signature })

-- Test: the record is put with its signature.
put_record_photo :
    put_record env binary service (some app) noon none 5 fields none none ≡ (stored, ok photo)
unfolding put_record
put_record_photo = refl

-- Test: a record can not be put without a signer.
put_record_no_signer :
    put_record env binary service none noon none 5 fields none none ≡ (none, err no_signer)
unfolding put_record
put_record_no_signer = refl

-- Test: the error of a missing record is no error.
get_record_missing :
    get_record env binary service none noon none 5 "photo" none false none ≡ (none, ok none)
unfolding get_record
get_record_missing = refl

get_record-put_record_example :
    IsOf env.codec app fields photo × IsReadBack env binary service 5 "photo" photo stored
get_record-put_record_example =
    get_record-put_record env binary service app noon none 5 fields none none stored photo
      service-Keeps put_record_photo

abbrev sent_meta : RpcMeta
sent_meta = record {
  correlation_id = "c";
  token = none;
  cache_control = none;
  request = some (encode []);
}
