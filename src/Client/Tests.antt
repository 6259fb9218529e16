-- ===== src/Client/Tests.antt =====
-- Runs of packages/ddc-client/src/DdcClient.ts on a file storage and a node that keep one entity each.
use cere_ddc_sdk_js.Common.{
  ℕ, zero, suc, ◌≡◌, refl, Option, none, some, List, [], ◌∷◌, String, Result, ok, err, string_eq,
}
use cere_ddc_sdk_js.Streams.{Bytes}
use cere_ddc_sdk_js.Cid.{raw, to_string}
use cere_ddc_sdk_js.Cid.Codec.{codec}
use cere_ddc_sdk_js.FileStorage.{File}
use cere_ddc_sdk_js.DagNode.{DagNode}
use cere_ddc_sdk_js.DdcUri.{DdcUri, file}
use cere_ddc_sdk_js.Client.{FileResponse, StoreOptions, ClientParts, Entity, no_entity, store}

abbrev zeros : ℕ → Bytes
zeros zero = []
zeros (suc n) = 0 ∷ zeros n

abbrev Kept : Type 0
Kept = Option (List Bytes) × Option DagNode

abbrev only_cid : String
only_cid = to_string codec (raw (7 ∷ zeros 32))

abbrev kept_body : Option (List Bytes) → Kept → Kept × Result String String
kept_body none w = (w, err "endless")
kept_body (some chunks) (_, dag) = ((some chunks, dag), ok only_cid)

abbrev found_body : Option (List Bytes) → Result String FileResponse
found_body none = err "not found"
found_body (some chunks) = ok (record { cid = only_cid; body = chunks })

abbrev service : ClientParts Kept String (Unit {0})
service = record {
  store_file = λ bucket f options w. kept_body f.body w;
  store_dag_node = λ bucket dag options w. ((w.0, some dag), ok only_cid);
  read_file = λ bucket cid reading w. (w, found_body w.0);
  get_dag_node = λ bucket cid reading w. (w, ok w.1);
}

abbrev hello : File
hello = record { body = some ((1 ∷ 2 ∷ []) ∷ (3 ∷ []) ∷ []); size = some 3 }

abbrev as_album : StoreOptions
as_album = record {
  piece = record { access_token = none; name = some "album"; correlation_id = none };
  max_buffer_size = none;
}

abbrev neither : Entity
neither = record { as_file = none; as_dag_node = none }

abbrev hello_entity : Entity
hello_entity = record { as_file = some hello; as_dag_node = none }

abbrev hello_kept : Kept
hello_kept = (hello.body, none)

abbrev hello_uri : DdcUri
hello_uri = record { cid = only_cid; name = some "album"; bucket_id = 5; entity = file }

-- Test: what is neither a file nor a DAG node is not stored.
refused_entity : store codec service 5 neither as_album (none, none) ≡ ((none, none), err no_entity)
unfolding store
refused_entity = refl
