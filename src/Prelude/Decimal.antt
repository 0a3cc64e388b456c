-- ===== src/Prelude/Decimal.antt =====
-- How `{}` writes a number.
use Prim.Native.Nat.{ℕ, zero, suc, ◌/◌, ◌%◌}
use Prim.Native.String.{String, char_at}
use mathlib.Core.Path.{◌≡◌, refl}
use frama_c_mcp.Prelude.Tests.{ltb, if◌then◌else◌}

-- the digits of `n` in front of a text; `fuel` is above the number of digits
digits : ℕ → ℕ → String → String
digits zero n behind = behind
digits (suc fuel) n behind =
    let here : String = String.◌∷◌ (char_at "0123456789" (n % 10)) behind in
    let rest = digits fuel (n / 10) here in if ltb n 10 then here else rest

-- A number has at most as many digits as one more than itself.
unfoldable pub decimal : ℕ → String
unfolding digits
decimal n = digits (suc n) n ""

decimal_of_zero : decimal 0 ≡ "0"
unfolding decimal digits
decimal_of_zero = refl

decimal_of_many : decimal 1203 ≡ "1203"
unfolding decimal digits
decimal_of_many = refl
