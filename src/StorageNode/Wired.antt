-- ===== src/StorageNode/Wired.antt =====
-- The APIs that the constructor in packages/ddc/src/nodes/StorageNode.ts makes over one transport, and
-- how its operations pass their arguments on to them. The clock and the correlation id of a call are
-- read from the world.
use cere_ddc_sdk_js.Common.{ℕ, Bool, false, Option, none, some, Result, ok, err, or_else}
use cere_ddc_sdk_js.Streams.{Bytes}
use cere_ddc_sdk_js.Piece.{MultipartPiece}
use cere_ddc_sdk_js.Auth.{Signer}
use cere_ddc_sdk_js.Activity.{Environment, Moment}
use cere_ddc_sdk_js.DagNode.{ApiNode}
use cere_ddc_sdk_js.FileApi.Calls.{
  FileApiOptions, CallParams, MultipartRequest, RawMetadata, FileCalls, put_body,
  put_multipart_piece, get_file,
}
use cere_ddc_sdk_js.CnsApi.{RecordFields, Record, CnsError, CnsCalls, put_record, get_record}
use cere_ddc_sdk_js.DagApi
use cere_ddc_sdk_js.DagApi.{DagCalls, DagError}
use cere_ddc_sdk_js.StorageNode.{ApiRecord, RequestMeta, RawPieceMeta, Apis}

-- What the packages give: the binary forms of the messages, and whether bytes have the hash of a CID.
pub record Packages : Type 0 where
  pub env : Environment
  pub multipart_binary : MultipartRequest → Bytes
  pub record_binary : RecordFields → Bytes
  pub node_binary : ApiNode → Bytes
  pub same_hash : Bytes → Bytes → Bool

-- The other side of the transport.
pub record Server (W : Type 0) : Type 0 where
  pub clock : W → Moment
  pub files : FileCalls W
  pub dag : DagCalls W
  pub cns : CnsCalls W

-- `StorageNodeConfig`, as far as the APIs read it.
pub record NodeConfig : Type 0 where
  pub authenticate : Option Bool
  pub enable_acks : Option Bool

-- The record of a response, without its signature.
abbrev pub api_record : Record → ApiRecord
api_record r = record { name = r.name; cid = r.cid }

abbrev pub stored_as : {W : Type 0} → W × Result CnsError Record → W × Result CnsError ApiRecord
stored_as (w, ok r) = (w, ok (api_record r))
stored_as (w, err e) = (w, err e)

abbrev pub found_as :
    {W : Type 0} → W × Result CnsError (Option Record) → W × Result CnsError (Option ApiRecord)
found_as (w, ok none) = (w, ok none)
found_as (w, ok (some r)) = (w, ok (some (api_record r)))
found_as (w, err e) = (w, err e)

module _ (packages : Packages) (config : NodeConfig) (signer : Signer) where
  abbrev pub file_options : FileApiOptions
  file_options = record {
    signer = some signer;
    authenticate = config.authenticate;
    enable_acks = config.enable_acks;
  }

  abbrev pub call_params : Moment → RequestMeta → CallParams
  call_params moment meta = record {
    moment = moment;
    token = some meta.token;
    correlation_id = meta.correlation_id;
  }

  abbrev pub multipart_request : ℕ → MultipartPiece → MultipartRequest
  multipart_request bucket_id piece = record {
    bucket_id = bucket_id;
    total_size = piece.total_size;
    part_size = piece.part_size;
    part_hashes = piece.part_hashes;
  }

  abbrev pub raw_metadata : ℕ → RawPieceMeta → RawMetadata
  raw_metadata bucket_id raw = record {
    bucket_id = bucket_id;
    is_multipart = raw.is_multipart;
    offset = raw.offset;
  }

  -- `mapCnsRecordToAPI` gives no time to live.
  abbrev pub record_fields : ApiRecord → RecordFields
  record_fields r = record { name = r.name; cid = r.cid; ttl = none }

  module _ {W : Type 0} (server : Server W) where
    unfoldable pub apis_of : Apis W
    unfolding put_multipart_piece get_file put_record get_record DagApi.put_node DagApi.get_node
    apis_of = record {
      put_multipart_piece = λ meta piece w.
          put_multipart_piece packages.env packages.multipart_binary packages.same_hash file_options
            (call_params (server.clock w) meta) server.files
            (multipart_request meta.bucket_id piece) w;
      put_raw_piece = λ meta raw body w.
          put_body packages.env packages.multipart_binary packages.same_hash file_options
            (call_params (server.clock w) meta) server.files (raw_metadata meta.bucket_id raw) body
            (some raw.size) w;
      get_file = λ meta cid range w.
          get_file packages.env packages.multipart_binary packages.same_hash file_options
            (call_params (server.clock w) meta) server.files meta.bucket_id cid range w;
      put_node = λ meta node w.
          DagApi.put_node packages.env packages.node_binary packages.same_hash server.dag
            (some signer) (server.clock w) (some meta.token) meta.bucket_id node none
            meta.correlation_id w;
      get_node = λ meta cid path w.
          DagApi.get_node packages.env packages.node_binary packages.same_hash server.dag
            (or_else config.authenticate false) (some signer) (server.clock w) (some meta.token)
            meta.bucket_id cid path meta.correlation_id w;
      put_record = λ meta r w. stored_as (
          put_record packages.env packages.record_binary server.cns (some signer) (server.clock w)
            (some meta.token) meta.bucket_id (record_fields r) meta.correlation_id w);
      get_record = λ meta name w. found_as (
          get_record packages.env packages.record_binary server.cns (some signer) (server.clock w)
            (some meta.token) meta.bucket_id name meta.correlation_id false w);
    }
