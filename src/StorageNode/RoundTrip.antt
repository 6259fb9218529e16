-- ===== src/StorageNode/RoundTrip.antt =====
-- A piece that is stored and read with packages/ddc/src/nodes/StorageNode.ts, over the APIs of the
-- constructor and a service that keeps pieces.
use mathlib.Core.List.{flatten}
use cere_ddc_sdk_js.Common.{ℕ, ◌≡◌, none, List, String, ok}
use cere_ddc_sdk_js.Streams.{Bytes}
use cere_ddc_sdk_js.Cid.{Cid, text}
use cere_ddc_sdk_js.Auth.{Token}
use cere_ddc_sdk_js.Activity.{RpcMeta}
use cere_ddc_sdk_js.FileApi.{ReadOptions, Transfer}
use cere_ddc_sdk_js.FileApi.Calls.{CallParams, FileRequest, get_meta, options_of}
use cere_ddc_sdk_js.StorageNode.{OperationOptions, Apis, Session, token_for, meta_of, read_piece}
use cere_ddc_sdk_js.StorageNode.Wired.{
  Packages, Server, NodeConfig, file_options, call_params, apis_of,
}

module _ (packages : Packages) (config : NodeConfig) (session : Session) {W : Type 0}
    (server : Server W) where
  abbrev apis : Apis W
  apis = apis_of packages config session.signer server

  -- The reader has a token, and can make the metadata of the request.
  abbrev pub CanRead : ℕ → OperationOptions → W → Type 0
  CanRead bucket_id options w =
      (token : Token) × (token_for session options.access_token ≡ ok token)
      × ((b : Bytes)
          → (meta : RpcMeta) × (get_meta packages.env packages.multipart_binary packages.same_hash
                (file_options packages config session.signer)
                (call_params packages config session.signer (server.clock w)
                  (meta_of session apis bucket_id options token))
                bucket_id b none
              ≡ ok meta))

  -- What a reading of a kept piece gives.
  abbrev pub IsReadable : ℕ → OperationOptions → String → Bytes → W → Type 0
  IsReadable bucket_id options cid b w =
      (u : W) × (transfer : Transfer) × (read_piece session apis bucket_id options none cid w
        ≡ (u, ok (text cid, transfer)))
      × (flatten transfer.yielded ≡ b)

  abbrev options_for : CallParams → ReadOptions
  options_for params =
      options_of packages.env packages.multipart_binary packages.same_hash
        (file_options packages config session.signer) params server.files none

  abbrev request_for : CallParams → ℕ → Bytes → FileRequest
  request_for params bucket_id b = record {
    bucket_id = bucket_id;
    cid = b;
    range = none;
    authenticate = (options_for params).authenticate;
  }
