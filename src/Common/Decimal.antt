-- ===== src/Common/Decimal.antt =====
-- A natural number in a template literal: its decimal digits.
use Prim.Native.String.{String, [], ◌∷◌}
use Prim.Native.String
use Prim.Native.Nat.{ℕ, zero, suc, ◌/◌, ◌%◌}
use cere_ddc_sdk_js.Common.Tests.{if◌then◌else◌, ◌==◌}

digit : ℕ → String
digit zero = "0"
digit (suc zero) = "1"
digit (suc (suc zero)) = "2"
digit (suc (suc (suc zero))) = "3"
digit (suc (suc (suc (suc zero)))) = "4"
digit (suc (suc (suc (suc (suc zero))))) = "5"
digit (suc (suc (suc (suc (suc (suc zero)))))) = "6"
digit (suc (suc (suc (suc (suc (suc (suc zero))))))) = "7"
digit (suc (suc (suc (suc (suc (suc (suc (suc zero)))))))) = "8"
digit _ = "9"

digits_from : ℕ → ℕ → String
digits_from zero n = ""
digits_from (suc fuel) n =
    let rest = digits_from fuel (n / 10) in
    if n / 10 == 0 then digit (n % 10) else String.◌++◌ rest (digit (n % 10))

-- `${n}`; a number has no more digits than its value and one.
unfoldable pub decimal : ℕ → String
unfolding digits_from digit
decimal n = digits_from (suc n) n

infixl 65 ◌+str◌
abbrev pub ◌+str◌ : String → String → String
a +str b = String.◌++◌ a b
