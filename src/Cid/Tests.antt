-- ===== src/Cid/Tests.antt =====
-- Runs of packages/ddc/src/Cid.ts.
use cere_ddc_sdk_js.Common.{zero, suc, ℕ, ◌≡◌, refl, some, [], ◌∷◌}
use cere_ddc_sdk_js.Streams.{Bytes}
use cere_ddc_sdk_js.Cid.{text, content_type, dag_node}
use cere_ddc_sdk_js.Cid.Codec.{codec, encode}

abbrev ones : ℕ → Bytes
ones zero = []
ones (suc n) = 1 ∷ ones n

abbrev a_cid : Bytes
a_cid = 1 ∷ 1 ∷ ones 32

-- Test: the second byte tells the type.
content_type_dag_node : content_type codec (text (encode a_cid)) ≡ some (some dag_node)
unfolding content_type
content_type_dag_node = refl
