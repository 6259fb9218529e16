-- ===== src/DagNode.antt =====
-- packages/ddc/src/DagNode.ts: DAG nodes, and the form that they have in the RPC messages.
use cere_ddc_sdk_js.Common.{ℕ, List, String}
use cere_ddc_sdk_js.Streams.{Bytes}

pub record Link : Type 0 where
  pub cid : String
  pub size : ℕ
  pub name : String

pub record Tag : Type 0 where
  pub key : String
  pub value : String

pub record DagNode : Type 0 where
  pub data_buffer : Bytes
  pub links : List Link
  pub tags : List Tag

-- A link of the RPC messages.
pub record ApiLink : Type 0 where
  pub cid : Bytes
  pub size : ℕ
  pub name : String

pub record ApiNode : Type 0 where
  pub node_data : Bytes
  pub links : List ApiLink
  pub tags : List Tag
