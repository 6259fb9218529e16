-- ===== src/Piece.antt =====
-- packages/ddc/src/Piece.ts: raw pieces and multipart pieces.
pub mod Size
mod Tests
use cere_ddc_sdk_js.Common.{
  ℕ, zero, suc, Bool, true, false, Option, none, some, List, [], ◌∷◌, String, Result, ok, err,
  is_defined,
}
use cere_ddc_sdk_js.Streams.{
  Bytes, Content, bytes, iterable, content_stream, get_content_size, content_body,
}
use cere_ddc_sdk_js.Cid.{Base32, Cid, text, content_hash}

pub data PieceError : Type 0 where
  -- 'The piece size can not be determined'
  no_size : PieceError
  -- 'The content stream is locked and can not be reused'
  locked_stream : PieceError

-- `PieceMeta`
pub record PieceMeta : Type 0 where
  pub multipart_offset : Option ℕ
  pub size : Option ℕ

pub record Piece : Type 0 where
  pub content_length : Option ℕ
  pub content : Content
  pub offset : Option ℕ
  pub body : Option (List Bytes)
  pub meta : PieceMeta

-- The constructor. `body` is a stream of chunks; see `Streams.content_body`.
unfoldable pub new_piece : Content → PieceMeta → Piece
unfolding content_body get_content_size
new_piece content meta = record {
  content_length = get_content_size content meta.size;
  content = content;
  offset = meta.multipart_offset;
  body = content_body content;
  meta = meta;
}

abbrev pub is_part : Piece → Bool
is_part piece = is_defined piece.offset

-- `if (!this.contentLength) throw …`: a length of 0 is refused as well.
abbrev pub ensure_size : Option ℕ → Result PieceError ℕ
ensure_size none = err no_size
ensure_size (some zero) = err no_size
ensure_size (some (suc n)) = ok (suc n)

unfoldable pub size : Piece → Result PieceError ℕ
size piece = ensure_size piece.content_length

-- `isContentStream(piece.content) && piece.content.locked`
abbrev is_locked : Content → Bool → Bool
is_locked (content_stream _) locked = locked
is_locked _ locked = false

abbrev unless_locked : Bool → Piece → Result PieceError Piece
unless_locked true piece = err locked_stream
unless_locked false piece = ok piece

-- `Piece.from`; `locked` is the state of the content stream.
unfoldable pub from : Bool → Piece → Result PieceError Piece
unfolding new_piece
from locked piece =
    unless_locked (is_locked piece.content locked) (new_piece piece.content piece.meta)

pub record MultipartPiece : Type 0 where
  pub part_hashes : List Bytes
  pub part_size : ℕ
  pub total_size : ℕ
  pub parts : List String

abbrev cons_option {ℓ} : {A : Type ℓ} → Option A → Option (List A) → Option (List A)
cons_option none _ = none
cons_option (some a) none = none
cons_option (some a) (some as') = some (a ∷ as')

module _ (base32 : Base32) where
  -- `parts.map((part) => new Cid(part).contentHash)`
  unfoldable pub part_hashes : List String → Option (List Bytes)
  unfolding content_hash
  part_hashes [] = some []
  part_hashes (part ∷ parts) = cons_option (content_hash base32 (text part)) (part_hashes parts)

  abbrev with_hashes : List String → ℕ → ℕ → Option (List Bytes) → Option MultipartPiece
  with_hashes parts part_size total_size none = none
  with_hashes parts part_size total_size (some hashes) = some (record {
    part_hashes = hashes;
    part_size = part_size;
    total_size = total_size;
    parts = parts;
  })

  -- The constructor; `none` where a part is no base32 text.
  unfoldable pub new_multipart_piece : List String → ℕ → ℕ → Option MultipartPiece
  unfolding part_hashes
  new_multipart_piece parts part_size total_size =
      with_hashes parts part_size total_size (part_hashes parts)
