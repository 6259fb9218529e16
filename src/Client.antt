-- ===== src/Client.antt =====
-- packages/ddc-client/src/DdcClient.ts: how the client stores and reads entities through the file
-- storage and the node, which are an interface here, and the URIs of packages/ddc-client/src/DdcUri.ts.
pub mod Access
pub mod Account
pub mod RoundTrip
mod Tests
use cere_ddc_sdk_js.Common.{ℕ, Option, none, some, List, String, Result, ok, err}
use cere_ddc_sdk_js.Streams.{Bytes}
use cere_ddc_sdk_js.Cid.{Base32}
use cere_ddc_sdk_js.FileStorage.{File, PieceStoreOptions}
use cere_ddc_sdk_js.DagNode.{DagNode}
use cere_ddc_sdk_js.DdcUri.{
  file, dag_node, DdcEntity, DdcUri, UriError, file_uri, dag_node_uri, cid_or_name_of,
}

-- `FileResponse`
pub record FileResponse : Type 0 where
  pub cid : String
  pub body : List Bytes

-- `FileStoreOptions`: the options of a piece, and `maxBufferSize`
pub record StoreOptions : Type 0 where
  pub piece : PieceStoreOptions
  pub max_buffer_size : Option ℕ

-- The file storage and the node of a client, on the world `W`, with the errors `E` that they throw
-- and the options `R` of reading.
pub record ClientParts (W E R : Type 0) : Type 0 where
  pub store_file : ℕ → File → StoreOptions → W → W × Result E String
  pub store_dag_node : ℕ → DagNode → StoreOptions → W → W × Result E String
  pub read_file : ℕ → String → R → W → W × Result E FileResponse
  pub get_dag_node : ℕ → String → R → W → W × Result E (Option DagNode)

-- What `File.isFile` and `DagNode.isDagNode` find the argument to be.
pub record Entity : Type 0 where
  pub as_file : Option File
  pub as_dag_node : Option DagNode

pub data ClientError (E : Type 0) : Type 0 where
  part_failed : E → ClientError E
  -- '`entity` argument is neither File nor DagNode'
  no_entity : ClientError E
  bad_uri : UriError → ClientError E

pub data Response : Type 0 where
  file_response : FileResponse → Response
  node_response : Option DagNode → Response

module _ {W E R : Type 0} (base32 : Base32) (parts : ClientParts W E R) where
  abbrev pub then_return : {A B : Type 0} → (A → B) → W × Result E A → W × Result (ClientError E) B
  then_return f (w, ok a) = (w, ok (f a))
  then_return f (w, err e) = (w, err (part_failed e))

  abbrev pub store_node_entity :
      ℕ → Option DagNode → StoreOptions → W → W × Result (ClientError E) DdcUri
  store_node_entity bucket none options w = (w, err no_entity)
  store_node_entity bucket (some node) options w =
      then_return (λ cid. dag_node_uri base32 bucket cid options.piece.name)
        (parts.store_dag_node bucket node options w)

  abbrev pub store_file_entity :
      ℕ → Option File → Option DagNode → StoreOptions → W → W × Result (ClientError E) DdcUri
  store_file_entity bucket none as_node options w = store_node_entity bucket as_node options w
  store_file_entity bucket (some f) _ options w =
      then_return (λ cid. file_uri base32 bucket cid options.piece.name)
        (parts.store_file bucket f options w)

  -- `store`
  unfoldable pub store : ℕ → Entity → StoreOptions → W → W × Result (ClientError E) DdcUri
  unfolding file_uri dag_node_uri
  store bucket entity options w =
      store_file_entity bucket entity.as_file entity.as_dag_node options w

  abbrev pub read_target :
      DdcEntity → ℕ → Result UriError String → R → W → W × Result (ClientError E) Response
  read_target entity bucket (err e) options w = (w, err (bad_uri e))
  read_target file bucket (ok target) options w =
      then_return file_response (parts.read_file bucket target options w)
  read_target dag_node bucket (ok target) options w =
      then_return node_response (parts.get_dag_node bucket target options w)

  -- `read`, for the URIs of the two entities
  unfoldable pub read : DdcUri → R → W → W × Result (ClientError E) Response
  unfolding cid_or_name_of
  read uri options w = read_target uri.entity uri.bucket_id (cid_or_name_of uri) options w
