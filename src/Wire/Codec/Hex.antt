-- ===== src/Wire/Codec/Hex.antt =====
-- Hexadecimal lengths: `{:0wx}` and `usize::from_str_radix(s, 16)`.
use frama_c_mcp.Prelude.{
  ℕ, zero, suc, ◌+◌, ◌*◌, ◌-◌, ◌/◌, ◌%◌, ◌<◌, ◌≡◌, refl, ◌&&◌, ◌||◌, Option, none, some, List, [],
  ◌∷◌, ◌++◌, arith, All, length, length-append, ltb, leb, ◌==◌, if◌then◌else◌, Option-cases, inl,
  inr,
}

hex_digit : ℕ → ℕ
hex_digit d = if ltb d 10 then b'0' + d else b'a' + (d - 10)

digit_value : ℕ → Option ℕ
digit_value c =
    if leb b'0' c && leb c b'9'
    then some (c - b'0')
    else if leb b'a' c && leb c b'f'
    then some (c - b'a' + 10)
    else if leb b'A' c && leb c b'F'
    then some (c - b'A' + 10)
    else none

-- The digits of a number with no leading zero; 16 of them hold every `usize`.
digits_of : ℕ → ℕ → List ℕ
digits_of zero n = []
digits_of (suc fuel) n =
    let rest = digits_of fuel (n / 16) in if n == 0 then [] else rest ++ hex_digit (n % 16) ∷ []

-- At least `width` digits, zeros in front.
unfoldable pub padded : ℕ → ℕ → List ℕ
unfolding digits_of hex_digit
padded zero n = digits_of 16 n
padded (suc width) n = padded width (n / 16) ++ hex_digit (n % 16) ∷ []

parse_digits : ℕ → List ℕ → Option ℕ
parse_digits acc [] = some acc
parse_digits acc (c ∷ cs) = elim (digit_value c) [
  | none ↦ none
  | some d ↦ parse_digits (acc * 16 + d) cs
]

-- A sign in front of a digit is accepted, a sign alone is not. At most 15 digits are read here, so
-- no length passes 2 ^ 64.
unfoldable pub from_str_radix : List ℕ → Option ℕ
unfolding parse_digits digit_value
from_str_radix [] = none
from_str_radix (c ∷ []) = if c == b'+' || c == b'-' then none else parse_digits 0 (c ∷ [])
from_str_radix (c ∷ d ∷ cs) =
    if c == b'+' then parse_digits 0 (d ∷ cs) else parse_digits 0 (c ∷ d ∷ cs)

abbrev pub pow16 : ℕ → ℕ
pow16 zero = 1
pow16 (suc w) = 16 * pow16 w

digit_value-hex_digit : (d : ℕ) → d < 16 → digit_value (hex_digit d) ≡ some d
unfolding digit_value hex_digit
digit_value-hex_digit d h = ground arith

parse_digits-append :
    (acc : ℕ) (xs : List ℕ) (d : ℕ) {m : ℕ}
    → d < 16
    → parse_digits acc xs ≡ some m
    → parse_digits acc (xs ++ hex_digit d ∷ []) ≡ some (m * 16 + d)
unfolding parse_digits
parse_digits-append acc [] d h e = ground (arith, digit_value-hex_digit d)
parse_digits-append acc (x ∷ xs) d {m} h e = elim (Option-cases (digit_value x)) [
  | inl bad ↦ ground arith
  | inr (v, good) ↦
      let e' : parse_digits (acc * 16 + v) xs ≡ some m = ground arith in
      ground (arith, parse_digits-append (acc * 16 + v) xs d h e')
]

parse_digits-padded : (w n : ℕ) → n < pow16 w → parse_digits 0 (padded w n) ≡ some n
unfolding padded parse_digits
parse_digits-padded zero zero h = refl
parse_digits-padded zero (suc n) h = absurd (omega arith)
parse_digits-padded (suc w) n h =
    let before = parse_digits-padded w (n / 16) (omega arith) in
    ground (arith, parse_digits-append 0 (padded w (n / 16)) (n % 16) (omega arith) before)

pub length-padded : (w n : ℕ) → n < pow16 w → length (padded w n) ≡ w
unfolding padded
length-padded zero zero h = refl
length-padded zero (suc n) h = absurd (omega arith)
length-padded (suc w) n h = omega (
  arith,
  length-padded w (n / 16) (omega arith),
  length-append (padded w (n / 16)) (hex_digit (n % 16) ∷ []),
)

-- Text that reads as digits has no sign in front.
from_str_radix_of_parse :
    (xs : List ℕ) (n : ℕ) → 0 < length xs → parse_digits 0 xs ≡ some n → from_str_radix xs ≡ some n
unfolding from_str_radix
from_str_radix_of_parse [] n h e = absurd (omega arith)
from_str_radix_of_parse (c ∷ []) n h e = ground arith
from_str_radix_of_parse (c ∷ d ∷ cs) n h e = ground arith

-- A length that fits its width is read back.
pub from_str_radix-padded : (w n : ℕ) → 0 < w → n < pow16 w → from_str_radix (padded w n) ≡ some n
from_str_radix-padded w n pos h =
    from_str_radix_of_parse (padded w n) n (omega (arith, length-padded w n h))
      (parse_digits-padded w n h)

parse_digits_ascii :
    (acc : ℕ) (xs : List ℕ) {n : ℕ} → parse_digits acc xs ≡ some n → All (λ b. b < 0x80) xs
unfolding parse_digits digit_value
parse_digits_ascii acc [] e = tt
parse_digits_ascii acc (c ∷ cs) {n} e = elim (Option-cases (digit_value c)) [
  | inl bad ↦ ground arith
  | inr (d, good) ↦ (ground arith, parse_digits_ascii (acc * 16 + d) cs {n = n} (ground arith))
]

-- What is written as a length is ASCII.
pub padded_ascii : (w n : ℕ) → n < pow16 w → All (λ b. b < 0x80) (padded w n)
padded_ascii w n h = parse_digits_ascii 0 (padded w n) (parse_digits-padded w n h)
