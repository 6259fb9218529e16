-- ===== src/StorageNode/WiredTests.antt =====
-- Runs of packages/ddc/src/nodes/StorageNode.ts over the APIs of its constructor, and a service that
-- keeps the bytes of one piece.
use mathlib.Core.List.{flatten}
use cere_ddc_sdk_js.Common.{
  lookup, ℕ, zero, suc, ◌≡◌, ◌==◌, refl, subst, true, false, Option, none, some, List, [], ◌∷◌,
  ◌++◌, Result, ok, err, length, ◌===◌, string_eq, if◌then◌else◌,
}
use cere_ddc_sdk_js.Streams.{Bytes}
use cere_ddc_sdk_js.Cid.{text, to_bytes, is_cid}
use cere_ddc_sdk_js.Cid.Codec.{codec, encode}
use cere_ddc_sdk_js.Piece.{PieceMeta, size}
use cere_ddc_sdk_js.Nodes.{Thrown, plain_error}
use cere_ddc_sdk_js.Auth.{Token, Signer, first, get, put, ed25519, alg_ed_25519, create_signature}
use cere_ddc_sdk_js.Auth.Sdk.{create_auth_token}
use cere_ddc_sdk_js.FileApi.{Response, RawCall, Transfer, chunk}
use cere_ddc_sdk_js.FileApi.Calls.{RawMetadata}
use cere_ddc_sdk_js.FileApi.Reading.{proved_by}
use cere_ddc_sdk_js.StorageNode.{OperationOptions, Session, read_piece}
use cere_ddc_sdk_js.StorageNode.Reads.{ProvesNothing, read_piece-IsAuthentic}
use cere_ddc_sdk_js.StorageNode.Wired.{Packages, Server, NodeConfig, apis_of}

abbrev root_token : Token
root_token =
    first
      (record {
        bucket_id = none;
        operations = get ∷ put ∷ [];
        can_delegate = some false;
        expires_at = some 5000;
        subject = none;
        piece_cid = none;
      })
      (some (record { algorithm = alg_ed_25519; signer = 1 ∷ []; value = 9 ∷ [] }))

abbrev app : Signer
app = record {
  address = encode (1 ∷ []);
  public_key = 1 ∷ [];
  type = ed25519;
  sign_message = λ m. 9 ∷ m;
}

abbrev session : Session
session = record {
  base32 = codec;
  codec = record { encode_address = encode; decode_address = codec.decode };
  to_binary = λ t. 0 ∷ [];
  now = 0;
  signer = app;
  registry = [];
  root = ok root_token;
  parse_token = λ s. if s === "token" then some root_token else none;
}

abbrev ones : ℕ → Bytes
ones zero = []
ones (suc n) = 1 ∷ ones n

-- The bytes of the piece that is kept.
abbrev Store : Type 0
Store = Bytes

abbrev keeping : RawCall Store RawMetadata
keeping = record {
  send_metadata = λ meta size w. [];
  headers = λ w. (w, ok tt);
  send_content = λ b w. (w ++ b, ok tt);
  complete = λ w. (w, ok (ones 34));
}

abbrev refused : Thrown
refused = plain_error "no"

abbrev server : Server Store
server = record {
  clock = λ w. record { now = 12; request_id = "r"; correlation_id = "c" };
  files = record {
    put_multipart_piece = λ meta request w. (w, err refused);
    put_raw_piece = λ meta. keeping;
    get_file = λ meta request w. (w, ok (chunk w ∷ [], none));
  };
  dag = record {
    put = λ meta bucket node cid w. (w, err refused);
    get = λ meta bucket cid path w. (w, ok none);
  };
  cns = record {
    put = λ meta bucket r w. (w, err refused);
    get = λ meta bucket name w. (w, ok none);
  };
}

abbrev packages : Packages
packages = record {
  env = record {
    codec = session.codec;
    registry = [];
    request_binary = λ r. r.id;
    base64 = encode;
    token_text = λ t. "token";
  };
  multipart_binary = λ r. [];
  record_binary = λ r. r.cid;
  node_binary = λ n. n.node_data;
  same_hash = λ cid b. length b == 2;
}

abbrev config : NodeConfig
config = record { authenticate = some true; enable_acks = none }

abbrev options : OperationOptions
options = record { access_token = some "token"; name = none; correlation_id = none }

abbrev piece_meta : PieceMeta
piece_meta = record { multipart_offset = none; size = none }

abbrev two : Bytes
two = 7 ∷ 8 ∷ []

abbrev transfer : Transfer
transfer = record { yielded = two ∷ []; acks = 2 ∷ []; outcome = ok tt }

-- Test: and it is read.
read_piece-two :
    read_piece session (apis_of packages config app server) 1 options none (encode (ones 34)) two
    ≡ (two, ok (text (encode (ones 34)), transfer))
unfolding read_piece create_auth_token is_cid to_bytes apis_of create_signature lookup
read_piece-two = refl

answered_same :
    (w w' : Store) (given responses : List Response) (last' last : Option Thrown)
    → ◌≡◌ {A = Store × Result Thrown (List Response × Option Thrown)}
        (w, ok (given, last'))
        (w', ok (responses, last))
    → given ≡ responses
answered_same w w' given responses last' last h = cc

proves_nothing : ProvesNothing server.files
proves_nothing meta request w w' responses last e =
    subst (λ r. proved_by false r ≡ false) (answered_same w w' (chunk w ∷ []) responses none last e)
      refl

read_piece-IsAuthentic_example :
    (b : Bytes) × (to_bytes codec (text (encode (ones 34))) ≡ some b)
    × (packages.same_hash b (flatten transfer.yielded) ≡ true)
read_piece-IsAuthentic_example =
    read_piece-IsAuthentic packages config session server 1 options (encode (ones 34))
      (text (encode (ones 34))) transfer two two refl proves_nothing read_piece-two refl
