-- ===== src/Routing/Router/Tests.antt =====
-- Calls of `getNode` of packages/ddc/src/routing/Router.ts on a router with one node.
use cere_ddc_sdk_js.Common.{◌≡◌, refl, true, false, none, [], ◌∷◌, lookup, insert}
use cere_ddc_sdk_js.Cid.Codec.{codec, encode}
use cere_ddc_sdk_js.Auth.{Signer, ed25519, decode_piece}
use cere_ddc_sdk_js.Routing.{RouterNode, read_piece, storage}
use cere_ddc_sdk_js.Routing.Strategy.{static}
use cere_ddc_sdk_js.Routing.Router.{Router, Surroundings}
use cere_ddc_sdk_js.Routing.Router.Tokens.{Signing, Request, token_at, run, IsShared, run-IsShared}

abbrev app : Signer
app = record {
  address = encode (1 ∷ []);
  public_key = 1 ∷ [];
  type = ed25519;
  sign_message = λ m. 9 ∷ m;
}

abbrev sdk : Signer
sdk = record {
  address = encode (2 ∷ []);
  public_key = 2 ∷ [];
  type = ed25519;
  sign_message = λ m. 8 ∷ m;
}

abbrev signing : Signing
signing = record {
  codec = record { encode_address = encode; decode_address = codec.decode };
  base32 = codec;
  to_binary = λ t. 0 ∷ [];
  signer = app;
  is_web3 = true;
}

abbrev node : RouterNode
node = record {
  mode = storage;
  ssl = true;
  http_url = "https://a";
  grpc_url = "grpc://a:9090";
  node_id = none;
  priority = none;
}

abbrev world : Surroundings
world = record {
  ssl_required = false;
  chain = record { get_bucket = λ id. none; list_storage_nodes = [] };
  later_chain = record { get_bucket = λ id. none; list_storage_nodes = [] };
  draws = [];
  events = [];
}

abbrev request : Request
request = record {
  world = world;
  now = 5;
  random = sdk;
  operation = read_piece;
  bucket_id = 1;
  exclude = [];
}

abbrev router : Router
router = record { strategy = static (node ∷ []); nodes_map = [] }

-- Test: the random signer of the second call is not made.
run_registry :
    (run signing
      (request ∷ record request { random = app } ∷ [])
      (record { router = router; sdk_token = none; registry = [] })).0.registry
    ≡ (encode (2 ∷ []), sdk) ∷ []
unfolding run insert lookup decode_piece
run_registry = refl

run-IsShared_example :
    IsShared signing (token_at signing request none []).1 (token_at signing request none []).0 (
      run signing
        (request ∷ request ∷ [])
        (record { router = router; sdk_token = none; registry = [] }))
run-IsShared_example = run-IsShared signing request (request ∷ []) router [] refl
