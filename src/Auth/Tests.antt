-- ===== src/Auth/Tests.antt =====
-- Runs of packages/ddc/src/auth, with addresses and tokens in a form of the test's own.
use cere_ddc_sdk_js.Common.{◌≡◌, refl, false, none, some, [], ◌∷◌, err}
use cere_ddc_sdk_js.Streams.{Bytes}
use cere_ddc_sdk_js.Cid.Codec.{codec, encode}
use cere_ddc_sdk_js.Auth.{
  Grant, Token, delegated, first, get, put, delete, AddressCodec, Signer, ed25519, ecdsa,
  bad_signer, ApiSignature, alg_ed_25519, from, sign,
}
use cere_ddc_sdk_js.Auth.Delegation.{Derives, from-Derives}
use cere_ddc_sdk_js.Auth.Sdk.{Registry}

abbrev addresses : AddressCodec
addresses = record { encode_address = encode; decode_address = codec.decode }

abbrev binary : Token → Bytes
binary t = 0 ∷ []

abbrev app : Signer
app = record {
  address = encode (1 ∷ []);
  public_key = 1 ∷ [];
  type = ed25519;
  sign_message = λ m. 9 ∷ m;
}

abbrev sdk : Signer
sdk = record {
  address = encode (2 ∷ []);
  public_key = 2 ∷ [];
  type = ed25519;
  sign_message = λ m. 8 ∷ m;
}

abbrev made : Registry
made = (encode (2 ∷ []), sdk) ∷ []

abbrev to_sdk : Grant
to_sdk = record {
  bucket_id = some 1;
  operations = get ∷ put ∷ [];
  can_delegate = none;
  expires_at = some 5000;
  subject = some (2 ∷ []);
  piece_cid = none;
}

abbrev by_app : ApiSignature
by_app = record { algorithm = alg_ed_25519; signer = 1 ∷ []; value = 9 ∷ 0 ∷ [] }

-- Signed by the application for the random signer, so not signed by its subject.
abbrev shared : Token
shared = first to_sdk (some by_app)

abbrev for_operation : Token
for_operation =
    delegated (record to_sdk { can_delegate = some false; subject = none }) shared
      (some (record { algorithm = alg_ed_25519; signer = 2 ∷ []; value = 8 ∷ 0 ∷ [] }))

-- Test: a signer of a type that DDC does not know.
sign_ecdsa : sign binary (record app { type = ecdsa }) shared ≡ err (bad_signer ecdsa)
unfolding sign
sign_ecdsa = refl

from-Derives_example : Derives 0 shared (from addresses codec 0 shared)
from-Derives_example = from-Derives addresses codec 0 shared

abbrev web3_token : Token
web3_token =
    first
      (record {
        bucket_id = none;
        operations = get ∷ put ∷ delete ∷ [];
        can_delegate = some false;
        expires_at = some 2592000000;
        subject = some (2 ∷ []);
        piece_cid = none;
      })
      (some by_app)
