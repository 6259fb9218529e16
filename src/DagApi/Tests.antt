-- ===== src/DagApi/Tests.antt =====
-- Runs of packages/ddc/src/DagApi/DagApi.ts on a service with one node.
use cere_ddc_sdk_js.Common.{ℕ, ◌≡◌, ◌==◌, refl, Bool, true, none, some, [], ◌∷◌, ok, err, length}
use cere_ddc_sdk_js.Streams.{Bytes}
use cere_ddc_sdk_js.Cid.Codec.{codec, encode}
use cere_ddc_sdk_js.Activity.{Environment, Moment}
use cere_ddc_sdk_js.DagNode.{ApiNode}
use cere_ddc_sdk_js.DagApi.{DagCalls, invalid_node, get_node, put_node}
use cere_ddc_sdk_js.DagApi.Validation.{IsValid, get_node-IsValid}

abbrev env : Environment
env = record {
  codec = record { encode_address = encode; decode_address = codec.decode };
  registry = [];
  request_binary = λ r. r.id;
  base64 = encode;
  token_text = λ t. "token";
}

abbrev noon : Moment
noon = record { now = 12; request_id = "r"; correlation_id = "c" }

abbrev leaf : ApiNode
leaf = record { node_data = 1 ∷ 2 ∷ []; links = []; tags = [] }

abbrev service : DagCalls ℕ
service = record {
  put = λ meta bucket node cid w. (w, ok (3 ∷ []));
  get = λ meta bucket cid path w. (w, ok (some leaf));
}

abbrev binary : ApiNode → Bytes
binary node = node.node_data

-- The hash of the test: a CID is as long as the content.
abbrev same_length : Bytes → Bytes → Bool
same_length cid b = length cid == length b

-- Test: the CID of a node is the service's.
put_node_leaf :
    put_node env binary same_length service none noon none 5 leaf none none 0 ≡ (0, ok (3 ∷ []))
unfolding put_node
put_node_leaf = refl

-- Test: a node whose hash is another one is refused.
get_node_invalid :
    get_node env binary same_length service true none noon none 5 (9 ∷ []) none none 0
    ≡ (0, err invalid_node)
unfolding get_node
get_node_invalid = refl

-- Test: with a path, it is not validated.
get_node_path :
    get_node env binary same_length service true none noon none 5 (9 ∷ []) (some "link") none 0
    ≡ (0, ok (some leaf))
unfolding get_node
get_node_path = refl

get_node-IsValid_example :
    IsValid env binary same_length service 5 (9 ∷ 9 ∷ []) none (some leaf) 0 0
unfolding get_node
get_node-IsValid_example =
    get_node-IsValid env binary same_length service none noon none 5 (9 ∷ 9 ∷ []) none none 0 0
      (some leaf) refl refl
