-- ===== src/DdcUri.antt =====
-- packages/ddc-client/src/DdcUri.ts: what a URI of a file or of a DAG node points to.
pub mod Target
mod Tests
use cere_ddc_sdk_js.Common.{
  ℕ, Bool, true, false, Option, none, some, List, String, Result, ok, err, string_eq, ◌===◌,
  if◌then◌else◌, or_else,
}
use cere_ddc_sdk_js.Cid.{Base32, text, is_cid}

pub data DdcEntity : Type 0 where
  file dag_node : DdcEntity

-- An empty `cid` is none, as in the source.
pub record DdcUri : Type 0 where
  pub cid : String
  pub name : Option String
  pub bucket_id : ℕ
  pub entity : DdcEntity

-- 'Invalid DdcUri: both CID and Name are empty'
pub data UriError : Type 0 where
  empty_uri : UriError

module _ (base32 : Base32) where
  -- The constructor, with the name of the options.
  unfoldable pub new_uri : ℕ → String → DdcEntity → Option String → DdcUri
  unfolding is_cid
  new_uri bucket_id cid_or_name entity name =
      if is_cid base32 (text cid_or_name)
      then record { cid = cid_or_name; name = name; bucket_id = bucket_id; entity = entity }
      else record {
        cid = "";
        name = some (or_else name cid_or_name);
        bucket_id = bucket_id;
        entity = entity;
      }

  unfoldable pub file_uri : ℕ → String → Option String → DdcUri
  unfolding new_uri
  file_uri bucket_id cid_or_name name = new_uri bucket_id cid_or_name file name

  unfoldable pub dag_node_uri : ℕ → String → Option String → DdcUri
  unfolding new_uri
  dag_node_uri bucket_id cid_or_name name = new_uri bucket_id cid_or_name dag_node name

-- `if (!cidOrName) throw …`
abbrev pub ensure_text : Option String → Result UriError String
ensure_text none = err empty_uri
ensure_text (some s) = if s === "" then err empty_uri else ok s

-- `cidOrName`: `this.cid || this.name`
unfoldable pub cid_or_name_of : DdcUri → Result UriError String
cid_or_name_of uri = if uri.cid === "" then ensure_text uri.name else ok uri.cid
