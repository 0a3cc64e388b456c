-- ===== src/Prelude/Trim.antt =====
-- What the source uses of `str` on blanks, lines and separators.
use Prim.Native.Nat.{ℕ, ◌-◌}
use Prim.Native.Char.{Char, code}
use Prim.Native.String.{String, len, slice, find}
use mathlib.Core.Path.{◌≡◌, refl}
use mathlib.Core.Bool.{Bool, ◌&&◌, ◌||◌}
use mathlib.Core.List.{List, [], ◌∷◌}
use frama_c_mcp.Prelude.Tests.{leb, ◌==◌, if◌then◌else◌}
use frama_c_mcp.Prelude.Text.{contains, ends_with, is_empty_text}

-- `char::is_whitespace`
abbrev is_white : Char → Bool
is_white c =
    let n = code c in
    leb 9 n && leb n 13
    || n == 32
    || n == 133
    || n == 160
    || n == 5760
    || leb 8192 n && leb n 8202
    || n == 8232
    || n == 8233
    || n == 8239
    || n == 8287
    || n == 12288

abbrev trim_start : String → String
trim_start String.[] = ""
trim_start (String.◌∷◌ c s) = let rest = trim_start s in if is_white c then rest else String.◌∷◌ c s

abbrev trim_end : String → String
trim_end String.[] = ""
trim_end (String.◌∷◌ c s) =
    let rest = trim_end s in if is_white c && is_empty_text rest then "" else String.◌∷◌ c rest

-- `str::trim`
unfoldable pub trim : String → String
trim s = trim_end (trim_start s)

abbrev with_first : Char → List String → List String
with_first c [] = String.◌∷◌ c "" ∷ []
with_first c (w ∷ ws) = String.◌∷◌ c w ∷ ws

-- `split` at a character, given by its number
unfoldable pub split_on : ℕ → String → List String
split_on n String.[] = "" ∷ []
split_on n (String.◌∷◌ c s) =
    let rest = split_on n s in if code c == n then "" ∷ rest else with_first c rest

abbrev without_return : String → String
without_return s = if ends_with s "\r" then slice s 0 (len s - 1) else s

-- `lines().next().unwrap_or_default()`
unfoldable pub first_line : String → String
first_line s = if contains s "\n" then without_return (slice s 0 (find s "\n")) else s

trim_drops_blanks : trim "  a b\t" ≡ "a b"
unfolding trim
trim_drops_blanks = refl

split_on_plus : split_on b'+' "Typed+Cast+nat" ≡ "Typed" ∷ "Cast" ∷ "nat" ∷ []
unfolding split_on
split_on_plus = refl

first_line_of_two : first_line "one\r\ntwo" ≡ "one"
unfolding first_line
first_line_of_two = refl
