-- ===== src/Piece/Size.antt =====
-- Sizes and copies of the pieces of packages/ddc/src/Piece.ts.
use mathlib.Core.List.{flatten}
use cere_ddc_sdk_js.Common.{
  ◌≡◌, ◌<◌, refl, some, false, [], ◌∷◌, ok, err, arith, length, ◌⊎◌, inl, inr,
}
use cere_ddc_sdk_js.Streams.{
  Bytes, Content, bytes, iterable, content_stream, content_body, content_chunk_size,
  get_content_size,
}
use cere_ddc_sdk_js.Streams.Chunks.{content_body-Delivers, Delivers}
use cere_ddc_sdk_js.Piece.{no_size, PieceMeta, new_piece, size, from, ensure_size}

size_of_bytes :
    (b : Bytes)
    → ((0 < length b) × (ensure_size (some (length b)) ≡ ok (length b)))
      ⊎ ((b ≡ []) × (ensure_size (some (length b)) ≡ err no_size))
size_of_bytes [] = inr (refl, refl)
size_of_bytes (x ∷ b) = inl (omega arith, refl)

-- A piece of a byte array streams exactly its bytes, in chunks of the gRPC chunk size but for the
-- last; and its size is the number of these bytes, or is refused where there are none.
pub new_piece_bytes :
    (b : Bytes) (meta : PieceMeta)
    → Delivers content_chunk_size b (new_piece (bytes b) meta).body
      × (((0 < length b) × (size (new_piece (bytes b) meta) ≡ ok (length b)))
          ⊎ ((b ≡ []) × (size (new_piece (bytes b) meta) ≡ err no_size)))
unfolding new_piece size flatten content_body get_content_size
new_piece_bytes b meta = (content_body-Delivers b, size_of_bytes b)

-- A copy of a piece whose stream is not locked is the piece itself.
pub from_new_piece :
    (content : Content) (meta : PieceMeta)
    → from false (new_piece content meta) ≡ ok (new_piece content meta)
unfolding from new_piece
from_new_piece (bytes b) meta = refl
from_new_piece (iterable c) meta = refl
from_new_piece (content_stream c) meta = refl
