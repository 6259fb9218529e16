-- ===== src/Client/RoundTrip.antt =====
-- What packages/ddc-client/src/DdcClient.ts stores is read by the URI that it returns.
use mathlib.Core.List.{flatten}
use cere_ddc_sdk_js.Common.{
  ℕ, ◌≡◌, true, false, Option, none, some, List, String, Result, ok, string_eq, ◌===◌,
}
use cere_ddc_sdk_js.Streams.{Bytes}
use cere_ddc_sdk_js.Cid.{Base32, text, is_cid}
use cere_ddc_sdk_js.FileStorage.{File}
use cere_ddc_sdk_js.DagNode.{DagNode}
use cere_ddc_sdk_js.DdcUri.{DdcUri}
use cere_ddc_sdk_js.Client.{
  FileResponse, StoreOptions, ClientParts, ClientError, Response, file_response, node_response,
}

module _ {W E R : Type 0} (base32 : Base32) (parts : ClientParts W E R) where
  abbrev pub IsCidText : String → Type 0
  IsCidText cid = (is_cid base32 (text cid) ≡ true) × ((cid === "") ≡ false)

  -- The chunks of the answer hold the bytes of the file.
  abbrev pub Holds : File → FileResponse → Type 0
  Holds f response =
      (chunks : List Bytes) × (f.body ≡ some chunks) × (flatten response.body ≡ flatten chunks)

  -- The file storage and the node name what they store by a CID, and read by it what they stored.
  pub record Keeps : Type 0 where
    pub file_cid :
        (bucket : ℕ) (f : File) (options : StoreOptions) (w w' : W) (cid : String)
        → parts.store_file bucket f options w ≡ (w', ok cid)
        → IsCidText cid
    pub node_cid :
        (bucket : ℕ) (node : DagNode) (options : StoreOptions) (w w' : W) (cid : String)
        → parts.store_dag_node bucket node options w ≡ (w', ok cid)
        → IsCidText cid
    pub file_kept :
        (bucket : ℕ) (f : File) (options : StoreOptions) (w w' : W) (cid : String) (reading : R)
        → parts.store_file bucket f options w ≡ (w', ok cid)
        → (u : W) × (response : FileResponse) × (parts.read_file bucket cid reading w'
            ≡ (u, ok response))
          × Holds f response
    pub node_kept :
        (bucket : ℕ) (node : DagNode) (options : StoreOptions) (w w' : W) (cid : String)
        (reading : R)
        → parts.store_dag_node bucket node options w ≡ (w', ok cid)
        → (u : W) × (parts.get_dag_node bucket cid reading w' ≡ (u, ok (some node)))

  -- The answer to a reading is the entity: the bytes of a file, or else the node.
  abbrev pub IsReadAs : Option File → Option DagNode → W × Result (ClientError E) Response → Type 0
  IsReadAs (some f) _ result =
      (u : W) × (response : FileResponse) × (result ≡ (u, ok (file_response response)))
      × Holds f response
  IsReadAs none (some node) result = (u : W) × (result ≡ (u, ok (node_response (some node))))
  IsReadAs none none result = ⊥
