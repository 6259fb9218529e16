-- ===== src/Common/Digits.antt =====
-- Numbers from text, as `Number` and `BigInt` read decimal and hexadecimal digits.

use Prim.Native.String.{String}
use Prim.Native.Char.{char}
use Prim.Native.Nat.{ℕ, ◌+◌, ◌-◌, ◌*◌}
use mathlib.Core.Bool.{Bool, ◌&&◌}
use mathlib.Core.Option.{Option, none, some}
use cere_ddc_sdk_js.Common.Tests.{if◌then◌else◌, leb, ◌==◌}

abbrev between : ℕ → ℕ → ℕ → Bool
between low high c = leb low c && leb c high

abbrev pub decimal_digit : ℕ → Option ℕ
decimal_digit c = if between b'0' b'9' c then some (c - b'0') else none

abbrev pub hex_digit : ℕ → Option ℕ
hex_digit c =
    if between b'0' b'9' c
    then some (c - b'0')
    else if between b'a' b'f' c
    then some (c - b'a' + 10)
    else if between b'A' b'F' c
    then some (c - b'A' + 10)
    else none

-- The digits that are left, after the number read so far.
unfoldable pub digits_in : (ℕ → Option ℕ) → ℕ → ℕ → String → Option ℕ
digits_in digit base n String.[] = some n
digits_in digit base n (String.◌∷◌ (char c p) s) = elim (digit c) [
  | none ↦ none
  | some d ↦ digits_in digit base (base * n + d) s
]

-- `Number(text)` of digits; any other text is no number here.
unfoldable pub number_of : String → Option ℕ
unfolding digits_in
number_of s = digits_in decimal_digit 10 0 s

-- What follows the x of `0x`, if the text starts so.
abbrev after_x : String → Option String
after_x String.[] = none
after_x (String.◌∷◌ (char c p) s) = if c == b'x' then some s else none

abbrev hex_digits : String → Option String
hex_digits String.[] = none
hex_digits (String.◌∷◌ (char c p) s) = if c == b'0' then after_x s else none

-- `BigInt(text)` of decimal digits, or of hexadecimal ones after `0x`; it throws on any other text.
unfoldable pub big_int_of : String → Option ℕ
unfolding digits_in number_of
big_int_of s = elim (hex_digits s) [
  | none ↦ number_of s
  | some digits ↦ digits_in hex_digit 16 0 digits
]
