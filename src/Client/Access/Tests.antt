-- ===== src/Client/Access/Tests.antt =====
-- A run of `grantAccess` of packages/ddc-client/src/DdcClient.ts, and of an operation with its token.
use cere_ddc_sdk_js.Common.{false, ◌≡◌, refl, none, some, [], ◌∷◌, ok}
use cere_ddc_sdk_js.Streams.{Bytes}
use cere_ddc_sdk_js.Cid.Codec.{codec, encode}
use cere_ddc_sdk_js.Auth.{
  decode_piece, Grant, Token, TokenParams, delegated, first, get, AddressCodec, Signer, ed25519,
  alg_ed_25519,
}
use cere_ddc_sdk_js.Client.Access.{grant_access}

abbrev addresses : AddressCodec
addresses = record { encode_address = encode; decode_address = codec.decode }

abbrev binary : Token → Bytes
binary t = 0 ∷ []

abbrev owner : Signer
owner = record {
  address = encode (1 ∷ []);
  public_key = 1 ∷ [];
  type = ed25519;
  sign_message = λ m. 9 ∷ m;
}

abbrev friend : Signer
friend = record {
  address = encode (2 ∷ []);
  public_key = 2 ∷ [];
  type = ed25519;
  sign_message = λ m. 8 ∷ m;
}

abbrev params : TokenParams
params = record {
  bucket_id = some 1;
  operations = get ∷ [];
  can_delegate = none;
  expires_at = none;
  expires_in = some 100;
  subject = none;
  piece_cid = none;
  prev = none;
}

abbrev grant : Grant
grant = record {
  bucket_id = some 1;
  operations = get ∷ [];
  can_delegate = some false;
  expires_at = some 105;
  subject = some (2 ∷ []);
  piece_cid = none;
}

abbrev granted : Token
granted =
    first grant (some (record { algorithm = alg_ed_25519; signer = 1 ∷ []; value = 9 ∷ 0 ∷ [] }))

abbrev for_operation : Token
for_operation =
    delegated (record grant { subject = none }) granted
      (some (record { algorithm = alg_ed_25519; signer = 2 ∷ []; value = 8 ∷ 0 ∷ [] }))

-- Test: no subject, so the token is for everybody.
grant_access_nobody :
    grant_access addresses codec binary 5 owner "" params
    ≡ ok (
        first
          (record grant { subject = none })
          (some (record { algorithm = alg_ed_25519; signer = 1 ∷ []; value = 9 ∷ 0 ∷ [] })))
unfolding grant_access decode_piece
grant_access_nobody = refl
