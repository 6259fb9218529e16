-- ===== src/Nodes/Cluster/Tests.antt =====
-- A storage node of a cluster that refuses a piece of the balanced node of
-- packages/ddc/src/nodes/BalancedNode.ts.
use cere_ddc_sdk_js.Common.{
  false, lookup, ℕ, zero, suc, ◌+◌, ◌≡◌, refl, ap, none, some, List, [], ◌∷◌, String, Result, ok,
  err, length, arith,
}
use cere_ddc_sdk_js.Streams.{Bytes, bytes}
use cere_ddc_sdk_js.Cid.Codec.{codec, encode}
use cere_ddc_sdk_js.Piece.{PieceMeta, new_piece}
use cere_ddc_sdk_js.Auth.{Token, first, put, ed25519, alg_ed_25519}
use cere_ddc_sdk_js.Auth.Sdk.{create_auth_token}
use cere_ddc_sdk_js.Routing.{Operation}
use cere_ddc_sdk_js.FileApi.{max_piece_size}
use cere_ddc_sdk_js.StorageNode.{NodeFailure, OperationOptions, Session, single, token_for}
use cere_ddc_sdk_js.StorageNode.Wired.{Packages, NodeConfig, Server}
use cere_ddc_sdk_js.Nodes.{Thrown, plain_error}
use cere_ddc_sdk_js.Nodes.Retry.Immediate.{library}
use cere_ddc_sdk_js.Nodes.Operations.{balanced_store_piece}
use cere_ddc_sdk_js.Nodes.Cluster.{operations_of}
use cere_ddc_sdk_js.Nodes.Cluster.Refused.{asked_once, handle_of, balanced_store_piece_too_large}

abbrev token : Token
token =
    first
      (record {
        bucket_id = none;
        operations = put ∷ [];
        can_delegate = none;
        expires_at = some 5000;
        subject = none;
        piece_cid = none;
      })
      (some (record { algorithm = alg_ed_25519; signer = 1 ∷ []; value = 9 ∷ [] }))

abbrev session : Session
session = record {
  base32 = codec;
  codec = record { encode_address = encode; decode_address = codec.decode };
  to_binary = λ t. 0 ∷ [];
  now = 0;
  signer = record {
    address = encode (1 ∷ []);
    public_key = 1 ∷ [];
    type = ed25519;
    sign_message = λ m. 9 ∷ m;
  };
  registry = [];
  root = ok token;
  parse_token = λ s. some token;
}

-- The number of the calls that arrive.
abbrev World : Type 0
World = ℕ

abbrev refusal : Thrown
refusal = plain_error "no"

abbrev server : String → Server World
server node = record {
  clock = λ w. record { now = 12; request_id = "r"; correlation_id = "c" };
  files = record {
    put_multipart_piece = λ meta request w. (suc w, err refusal);
    put_raw_piece = λ meta. record {
      send_metadata = λ m size w. suc w;
      headers = λ w. (suc w, err refusal);
      send_content = λ b w. (suc w, ok tt);
      complete = λ w. (suc w, ok (9 ∷ []));
    };
    get_file = λ meta request w. (suc w, err refusal);
  };
  dag = record {
    put = λ meta bucket node cid w. (suc w, err refusal);
    get = λ meta bucket cid path w. (suc w, err refusal);
  };
  cns = record {
    put = λ meta bucket r w. (suc w, err refusal);
    get = λ meta bucket name w. (suc w, err refusal);
  };
}

abbrev packages : Packages
packages = record {
  env = record {
    codec = session.codec;
    registry = [];
    request_binary = λ r. r.id;
    base64 = encode;
    token_text = λ t. "token";
  };
  multipart_binary = λ r. [];
  record_binary = λ r. r.cid;
  node_binary = λ n. n.node_data;
  same_hash = λ cid b. false;
}

abbrev config : NodeConfig
config = record { authenticate = none; enable_acks = none }

abbrev get_node : Operation → ℕ → List String → World → World × Result Thrown String
get_node operation bucket exclude w = (w, ok "a")

abbrev message : NodeFailure → String
message failure = "refused"

abbrev options : OperationOptions
options = record { access_token = some "token"; name = none; correlation_id = none }

abbrev piece_meta : PieceMeta
piece_meta = record { multipart_offset = none; size = none }

zeros : ℕ → Bytes
zeros zero = []
zeros (suc n) = 0 ∷ zeros n

length-zeros : (n : ℕ) → length (zeros n) ≡ n
unfolding zeros
length-zeros zero = refl
length-zeros (suc n) = ap suc (length-zeros n)

token_for_options : token_for session (some "token") ≡ ok token
unfolding token_for create_auth_token lookup
token_for_options = refl

balanced_store_piece_too_large_example :
    balanced_store_piece
      (λ node. node)
      get_node
      (operations_of message (
        handle_of
          (λ node. node)
          get_node
          message
          packages
          config
          (λ node. session)
          server
          "id"
          5
          1
          options))
      "id"
      5
      1
      options
      library
      (λ w. false)
      (single (new_piece (bytes (zeros (1 + max_piece_size))) piece_meta))
      0
    ≡ (asked_once "a" (plain_error "refused") 0, err (plain_error "refused"))
balanced_store_piece_too_large_example =
    balanced_store_piece_too_large (λ node. node) get_node message packages config (λ node. session)
      server "id" 5 1 options library (λ w. false) (zeros (1 + max_piece_size)) piece_meta 0 0 "a"
      token refl token_for_options (omega (arith, length-zeros (1 + max_piece_size)))
