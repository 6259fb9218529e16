-- ===== src/Streams/Tests.antt =====
-- Runs of packages/ddc/src/streams/createStream.ts.
use cere_ddc_sdk_js.Streams.Ending.{Ends, with_chunk_size-Ends_iff}
use cere_ddc_sdk_js.Common.{◌↔◌, ◌⊎◌, ◌<◌, ◌≡◌, refl, none, some, List, [], ◌∷◌}
use cere_ddc_sdk_js.Streams.{Bytes, content_stream, with_chunk_size, content_body}

abbrev uneven : List Bytes
uneven = (1 ∷ []) ∷ (2 ∷ 3 ∷ 4 ∷ 5 ∷ 6 ∷ []) ∷ [] ∷ (7 ∷ []) ∷ []

abbrev at_once : List Bytes
at_once = (1 ∷ 2 ∷ 3 ∷ 4 ∷ 5 ∷ 6 ∷ 7 ∷ []) ∷ []

-- Test: chunks are joined and cut.
with_chunk_size-uneven :
    with_chunk_size 3 uneven ≡ some ((1 ∷ 2 ∷ 3 ∷ []) ∷ (4 ∷ 5 ∷ 6 ∷ []) ∷ (7 ∷ []) ∷ [])
unfolding with_chunk_size
with_chunk_size-uneven = refl

-- Test: with chunk size 0 the loop does not end.
with_chunk_size_zero : with_chunk_size 0 uneven ≡ none
unfolding with_chunk_size
with_chunk_size_zero = refl

-- Test: a stream that is given stays as it is.
content_body_stream : content_body (content_stream uneven) ≡ some uneven
unfolding content_body
content_body_stream = refl

with_chunk_size-Ends_iff_example : Ends (with_chunk_size 0 uneven) ↔ ((0 < 0) ⊎ (uneven ≡ []))
with_chunk_size-Ends_iff_example = with_chunk_size-Ends_iff 0 uneven
