-- ===== src/Cid.antt =====
-- packages/ddc/src/Cid.ts, over the base32 codec of the package `multiformats`.
pub mod Laws
pub mod Codec
mod Tests
use cere_ddc_sdk_js.Common.{
  ℕ, zero, suc, ◌-◌, ◌≡◌, Bool, true, false, Option, none, some, List, String, drop, length,
  get_elem?, ltb,
}
use cere_ddc_sdk_js.Streams.{Bytes}

-- `base32.encode` and `base32.decode`; `decode` is `none` where the package throws.
pub record Base32 : Type 0 where
  pub encode : Bytes → String
  pub decode : String → Option Bytes
  pub decode-encode : (b : Bytes) → decode (encode b) ≡ some b

-- The private field `cid`.
pub data Cid : Type 0 where
  text : String → Cid
  raw : Bytes → Cid

-- `CidContentType`; `undefined` outside the table is `none`.
pub data CidContentType : Type 0 where
  none_type dag_node raw_piece multipart_piece : CidContentType

abbrev cid_content_type_map : ℕ → Option CidContentType
cid_content_type_map zero = some none_type
cid_content_type_map (suc zero) = some dag_node
cid_content_type_map (suc (suc zero)) = some raw_piece
cid_content_type_map (suc (suc (suc zero))) = some multipart_piece
cid_content_type_map _ = none

abbrev type_at : Option ℕ → Option CidContentType
type_at none = none
type_at (some code) = cid_content_type_map code

-- `bytes.slice(-32)`
abbrev last_32 : Bytes → Bytes
last_32 b = drop (length b - 32) b

abbrev pub map_option {ℓ κ} : {A : Type ℓ} {B : Type κ} → (A → B) → Option A → Option B
map_option f none = none
map_option f (some a) = some (f a)

module _ (base32 : Base32) where
  unfoldable pub to_bytes : Cid → Option Bytes
  to_bytes (text cid) = base32.decode cid
  to_bytes (raw cid) = some cid

  unfoldable pub to_string : Cid → String
  to_string (text cid) = cid
  to_string (raw cid) = base32.encode cid

  unfoldable pub content_hash : Cid → Option Bytes
  unfolding to_bytes
  content_hash cid = map_option last_32 (to_bytes cid)

  -- `cidContentTypeMap[this.toBytes()[1]]`
  unfoldable pub content_type : Cid → Option (Option CidContentType)
  unfolding to_bytes
  content_type cid = map_option (λ b. type_at (get_elem? b 1)) (to_bytes cid)

  abbrev is_long : Option Bytes → Bool
  is_long none = false
  is_long (some b) = ltb 32 (length b)

  -- `Cid.isCid`: whether the value decodes, to more than 32 bytes.
  unfoldable pub is_cid : Cid → Bool
  unfolding to_bytes
  is_cid cid = is_long (to_bytes cid)
