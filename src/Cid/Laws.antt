-- ===== src/Cid/Laws.antt =====
-- The two forms of a CID of packages/ddc/src/Cid.ts are interchangeable.
use cere_ddc_sdk_js.Common.{
  ◌-◌, ◌≡◌, refl, ap, true, Option, none, some, length, length-drop, arith,
}
use cere_ddc_sdk_js.Streams.{Bytes}
use cere_ddc_sdk_js.Cid.{
  Base32, Cid, text, raw, to_bytes, to_string, content_hash, content_type, is_cid, map_option,
  last_32, is_long,
}

module _ (base32 : Base32) where
  -- Printing the bytes of a CID as text keeps its bytes, its content hash, its content type, and
  -- whether it is a CID; and the text is the one that it started from.
  pub text_round_trip :
      (b : Bytes)
      → (to_bytes base32 (text (to_string base32 (raw b))) ≡ some b)
        × (content_hash base32 (text (to_string base32 (raw b))) ≡ content_hash base32 (raw b))
        × (content_type base32 (text (to_string base32 (raw b))) ≡ content_type base32 (raw b))
        × (is_cid base32 (text (to_string base32 (raw b))) ≡ is_cid base32 (raw b))
  unfolding to_bytes to_string content_hash content_type is_cid
  text_round_trip b = (
    base32.decode-encode b,
    ap (map_option last_32) (base32.decode-encode b),
    ap (map_option _) (base32.decode-encode b),
    ap (is_long base32) (base32.decode-encode b),
  )

  -- The content hash of what passes for a CID has 32 bytes.
  pub content_hash-length :
      (cid : Cid)
      → is_cid base32 cid ≡ true
      → (h : Bytes) × (content_hash base32 cid ≡ some h) × (length h ≡ 32)
  unfolding content_hash is_cid
  content_hash-length cid e = of_bytes (to_bytes base32 cid) e
    where
      of_bytes :
          (b : Option Bytes)
          → is_long base32 b ≡ true
          → (h : Bytes) × (map_option last_32 b ≡ some h) × (length h ≡ 32)
      of_bytes none e = cc
      of_bytes (some b) e = (last_32 b, refl, ground (arith, length-drop (length b - 32) b))
