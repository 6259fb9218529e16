-- ===== src/Activity/Tests.antt =====
-- Runs of packages/ddc/src/activity and of createRpcMeta.ts.
use cere_ddc_sdk_js.Common.{◌≡◌, refl, none, some, [], err}
use cere_ddc_sdk_js.Cid.Codec.{codec, encode}
use cere_ddc_sdk_js.Activity.{
  get, Moment, Environment, signer_required, create_activity_request, correlation_of,
}

abbrev noon : Moment
noon = record { now = 12; request_id = "r"; correlation_id = "c" }

abbrev plain : Environment
plain = record {
  codec = record { encode_address = encode; decode_address = codec.decode };
  registry = [];
  request_binary = λ r. r.id;
  base64 = encode;
  token_text = λ t. "token";
}

-- Test: a request needs a signer.
create_activity_request_no_signer :
    create_activity_request plain noon
      (record {
        request_id = none;
        request_type = get;
        bucket_id = 1;
        id = none;
        offset = none;
        size = none;
      })
      none
      none
    ≡ err signer_required
create_activity_request_no_signer = refl

-- Test: an empty correlation id is replaced.
correlation_of_empty : correlation_of noon (some "") ≡ "c"
correlation_of_empty = refl
