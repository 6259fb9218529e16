-- ===== src/StorageNode/Tests.antt =====
-- Runs of packages/ddc/src/nodes/StorageNode.ts on a node that keeps one piece and one record.
use cere_ddc_sdk_js.Auth.Sdk.{create_auth_token}
use cere_ddc_sdk_js.Common.{
  subst, ===_refl, ℕ, ◌≡◌, refl, false, Option, none, some, [], ◌∷◌, String, ok, err, ◌===◌,
  string_eq, if◌then◌else◌, zero, suc,
}
use cere_ddc_sdk_js.Streams.{Bytes, bytes}
use cere_ddc_sdk_js.Cid.{text, to_bytes, to_string, is_cid}
use cere_ddc_sdk_js.Cid.Codec.{codec, encode}
use cere_ddc_sdk_js.Piece.{size, new_piece}
use cere_ddc_sdk_js.FileApi.{no_piece_size}
use cere_ddc_sdk_js.DagApi.{invalid_node}
use cere_ddc_sdk_js.Auth.{Token, first, get, put, ed25519, alg_ed_25519}
use cere_ddc_sdk_js.StorageNode.{
  OperationOptions, ApiRecord, Apis, Session, AnyPiece, single, token_for, resolve_name,
  store_piece, unknown_name,
}
use cere_ddc_sdk_js.StorageNode.Names.{Remembers, resolve_name-store_piece}

abbrev root_token : Token
root_token =
    first
      (record {
        bucket_id = none;
        operations = get ∷ put ∷ [];
        can_delegate = some false;
        expires_at = some 5000;
        subject = none;
        piece_cid = none;
      })
      (some (record { algorithm = alg_ed_25519; signer = 1 ∷ []; value = 9 ∷ [] }))

abbrev session : Session
session = record {
  base32 = codec;
  codec = record { encode_address = encode; decode_address = codec.decode };
  to_binary = λ t. 0 ∷ [];
  now = 0;
  signer = record {
    address = encode (1 ∷ []);
    public_key = 1 ∷ [];
    type = ed25519;
    sign_message = λ m. 9 ∷ m;
  };
  registry = [];
  root = ok root_token;
  parse_token = λ s. if s === "token" then some root_token else none;
}

-- What the node stores: the latest record.
abbrev Store : Type 0
Store = Option ApiRecord

abbrev ones : ℕ → Bytes
ones zero = []
ones (suc n) = 1 ∷ ones n

abbrev found_in : Store → String → Option ApiRecord
found_in none name = none
found_in (some r) name = if r.name === name then some r else none

abbrev node : Apis Store
node = record {
  put_multipart_piece = λ meta piece w. (w, err no_piece_size);
  put_raw_piece = λ meta m body w. (w, ok (ones 34));
  get_file = λ meta cid range w.
      (w, ok (record { yielded = (7 ∷ 8 ∷ []) ∷ []; acks = []; outcome = ok tt }));
  put_node = λ meta n w. (w, err invalid_node);
  get_node = λ meta cid path w. (w, ok none);
  put_record = λ meta r w. (some r, ok r);
  get_record = λ meta name w. (w, ok (found_in w name));
}

abbrev options : OperationOptions
options = record { access_token = some "token"; name = some "photo"; correlation_id = none }

abbrev piece : AnyPiece
piece = single (new_piece (bytes (7 ∷ 8 ∷ [])) (record { multipart_offset = none; size = none }))

abbrev stored : Store
stored = some (record { name = "photo"; cid = ones 34 })

-- Test: the piece is stored under its name.
store_piece_photo : store_piece session node 1 options piece none ≡ (stored, ok (encode (ones 34)))
unfolding store_piece create_auth_token size new_piece to_bytes to_string
store_piece_photo = refl

-- Test: a name that nobody recorded.
resolve_name_unknown :
    resolve_name session node 1 options "other" stored ≡ (stored, err (unknown_name "other"))
unfolding resolve_name is_cid create_auth_token
resolve_name_unknown = refl

-- Test: the token of the operation.
token_for_photo : token_for session (some "token") ≡ ok root_token
unfolding token_for create_auth_token
token_for_photo = refl

remembers : Remembers session node 1 options
remembers meta r a v w' e =
    subst (λ s. (u : Store) × (node.get_record meta r.name s ≡ (u, ok (some r)))) (λ i. (e i).0)
      (some r, rw (===_refl r.name) refl)

resolve_name-store_piece_example :
    (u : Store) × (resolve_name session node 1 options "photo" stored
      ≡ (u, ok (text (encode (ones 34)))))
unfolding is_cid
resolve_name-store_piece_example =
    resolve_name-store_piece session node 1 options piece "photo" (encode (ones 34)) none stored
      remembers refl refl refl store_piece_photo
