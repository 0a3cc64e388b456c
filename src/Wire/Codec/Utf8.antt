-- ===== src/Wire/Codec/Utf8.antt =====
-- `std::str::from_utf8`: whether bytes are well-formed UTF-8, by the bytes still owed.
use frama_c_mcp.Prelude.{
  ℕ, zero, suc, ◌<◌, ◌≡◌, refl, Bool, true, false, ◌&&◌, Option, none, some, List, [], ◌∷◌, arith,
  All, ltb, leb, ◌==◌, if◌then◌else◌,
}

-- What a leading byte asks for: how many bytes follow, and the range of the first of them.
pub lead : ℕ → Option (ℕ × ℕ × ℕ)
lead b =
    if ltb b 0x80
    then some (0, 0x80, 0xbf)
    else if ltb b 0xc2
    then none
    else if ltb b 0xe0
    then some (1, 0x80, 0xbf)
    else if b == 0xe0
    then some (2, 0xa0, 0xbf)
    else if b == 0xed
    then some (2, 0x80, 0x9f)
    else if ltb b 0xf0
    then some (2, 0x80, 0xbf)
    else if b == 0xf0
    then some (3, 0x90, 0xbf)
    else if ltb b 0xf4
    then some (3, 0x80, 0xbf)
    else if b == 0xf4
    then some (3, 0x80, 0x8f)
    else none

utf8_from : ℕ → ℕ → ℕ → List ℕ → Bool
utf8_from owed lo hi [] = owed == 0
utf8_from zero lo hi (b ∷ bs) = elim (lead b) [
  | none ↦ false
  | some (owed, lo', hi') ↦ utf8_from owed lo' hi' bs
]
utf8_from (suc owed) lo hi (b ∷ bs) =
    let rest = utf8_from owed 0x80 0xbf bs in leb lo b && leb b hi && rest

unfoldable pub utf8_ok : List ℕ → Bool
unfolding utf8_from lead
utf8_ok bs = utf8_from 0 0x80 0xbf bs

-- ASCII is UTF-8.
pub utf8_ok_ascii : (bs : List ℕ) → All (λ b. b < 0x80) bs → utf8_ok bs ≡ true
unfolding utf8_ok
utf8_ok_ascii [] h = refl
utf8_ok_ascii (b ∷ bs) h = ground (arith, utf8_ok_ascii bs)
