-- ===== src/FileApi/PartSize.antt =====
-- The part size that `putMultipartPiece` of packages/ddc/src/FileApi/FileApi.ts declares.
use cere_ddc_sdk_js.Common.{ℕ, ◌*◌, ◌^◌, ◌<◌, ◌≤◌, ◌≡◌}

-- The least power of 2 that is not less than the number.
abbrev pub IsCeil : ℕ → ℕ → Type 0
IsCeil n r = (k : ℕ) × (r ≡ 2 ^ k) × (n ≤ r) × (r < 2 * n)
