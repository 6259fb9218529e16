-- ===== src/Cid/Codec.antt =====
-- A codec that stands in for base32 in the runs of the modules of tests: a byte is written as as
-- many ticks, and a stop.
use Prim.Native.String
use Prim.Native.Char.{char}
use cere_ddc_sdk_js.Common.{ℕ, zero, suc, ◌+◌, ◌≡◌, refl, ap, ◌∙◌, Option, some, [], ◌∷◌, arith}
use cere_ddc_sdk_js.Streams.{Bytes}
use cere_ddc_sdk_js.Cid.{Base32, map_option}

abbrev pub ticks : ℕ → String.String → String.String
ticks zero s = String.◌∷◌ (char 1 tt) s
ticks (suc n) s = String.◌∷◌ (char 0 tt) (ticks n s)

abbrev pub encode : Bytes → String.String
encode [] = String.[]
encode (n ∷ b) = ticks n (encode b)

abbrev pub read_from : ℕ → String.String → Option Bytes
read_from n String.[] = some []
read_from n (String.◌∷◌ (char zero p) s) = read_from (suc n) s
read_from n (String.◌∷◌ (char (suc k) p) s) = map_option (λ b. n ∷ b) (read_from zero s)

read_from-ticks :
    (k n : ℕ) (s : String.String)
    → read_from k (ticks n s) ≡ map_option (λ b. (k + n) ∷ b) (read_from zero s)
read_from-ticks k zero s = ap (λ m. map_option (λ b. m ∷ b) (read_from zero s)) (omega arith)
read_from-ticks k (suc n) s =
    read_from-ticks (suc k) n s ∙ ap (λ m. map_option (λ b. m ∷ b) (read_from zero s)) (omega arith)

pub decode-encode : (b : Bytes) → read_from zero (encode b) ≡ some b
decode-encode [] = refl
decode-encode (n ∷ b) =
    read_from-ticks zero n (encode b)
    ∙ ap (map_option (λ c. (0 + n) ∷ c)) (decode-encode b)
    ∙ ap (λ m. some (m ∷ b)) (omega arith)

abbrev pub codec : Base32
codec = record { encode = encode; decode = read_from zero; decode-encode = decode-encode }
