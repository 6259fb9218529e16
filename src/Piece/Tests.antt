-- ===== src/Piece/Tests.antt =====
-- Runs of packages/ddc/src/Piece.ts.
use cere_ddc_sdk_js.Common.{true, ◌≡◌, refl, none, [], ◌∷◌, err}
use cere_ddc_sdk_js.Streams.{Bytes, content_stream, get_content_size}
use cere_ddc_sdk_js.Piece.{PieceMeta, no_size, locked_stream, new_piece, size, from}

abbrev three_bytes : Bytes
three_bytes = 7 ∷ 8 ∷ 9 ∷ []

abbrev no_meta : PieceMeta
no_meta = record { multipart_offset = none; size = none }

-- Test: a stream has the size that is given, if any.
size_of_stream : size (new_piece (content_stream (three_bytes ∷ [])) no_meta) ≡ err no_size
unfolding size new_piece get_content_size
size_of_stream = refl

-- Test: a locked stream can not be copied.
from_locked : from true (new_piece (content_stream (three_bytes ∷ [])) no_meta) ≡ err locked_stream
unfolding from new_piece
from_locked = refl
