-- ===== src/Prelude/Text.antt =====
-- What the source uses of `str`: tests on whole texts, ASCII case, and splitting at underscores.
use Prim.Native.Nat.{◌-◌}
use Prim.Native.Char.{Char, code}
use Prim.Native.String.{String, ◌++◌, len, slice, find, char_at}
use mathlib.Core.Path.{◌≡◌}
use mathlib.Core.Logic.{◌↔◌}
use mathlib.Core.Bool.{Bool, true, ◌&&◌, ◌||◌}
use mathlib.Core.List.{List, [], ◌∷◌}
use text.Mathlib.Text.{◌==◌ as text_eq}
use text.Mathlib.TextEquality
use text.Mathlib.TextPositions
use frama_c_mcp.Prelude.Tests.{leb, ◌==◌, if◌then◌else◌}

infix 50 ◌=ˢ◌
abbrev pub ◌=ˢ◌ : String → String → Bool
s =ˢ t = text_eq s t

pub =ˢ_iff : (s t : String) → ((s =ˢ t) ≡ true) ↔ (s ≡ t)
=ˢ_iff = TextEquality.eq_iff

pub =ˢ_refl : (s : String) → (s =ˢ s) ≡ true
=ˢ_refl = TextPositions.eq_refl

-- `str::contains`: `find` answers one more than the length where the text is not found.
abbrev pub contains : String → String → Bool
contains s t = leb (find s t) (len s)

-- `str::ends_with`
abbrev pub ends_with : String → String → Bool
ends_with s t = leb (len t) (len s) && (slice s (len s - len t) (len s) =ˢ t)

abbrev pub is_upper : Char → Bool
is_upper c = leb b'A' (code c) && leb (code c) b'Z'

abbrev pub is_lower : Char → Bool
is_lower c = leb b'a' (code c) && leb (code c) b'z'

abbrev pub is_digit : Char → Bool
is_digit c = leb b'0' (code c) && leb (code c) b'9'

-- `char::is_ascii_alphanumeric`
abbrev pub is_alnum : Char → Bool
is_alnum c = is_upper c || is_lower c || is_digit c

-- `char::to_ascii_lowercase`
abbrev pub lower_char : Char → Char
lower_char c = if is_upper c then char_at "abcdefghijklmnopqrstuvwxyz" (code c - b'A') else c

abbrev pub lower : String → String
lower String.[] = ""
lower (String.◌∷◌ c s) = String.◌∷◌ (lower_char c) (lower s)

-- `str::eq_ignore_ascii_case`
abbrev pub eq_ignore_case : String → String → Bool
eq_ignore_case s t = lower s =ˢ lower t

abbrev pub is_underscore : Char → Bool
is_underscore c = code c == b'_'

abbrev pub underscore : Char
underscore = char_at "_" 0

abbrev pub cons_first : Char → List String → List String
cons_first c [] = String.◌∷◌ c "" ∷ []
cons_first c (w ∷ ws) = String.◌∷◌ c w ∷ ws

-- `split('_')`
abbrev pub split_words : String → List String
split_words String.[] = "" ∷ []
split_words (String.◌∷◌ c s) =
    let rest = split_words s in if is_underscore c then "" ∷ rest else cons_first c rest

abbrev pub join_words : List String → String
join_words [] = ""
join_words (w ∷ []) = w
join_words (w ∷ v ∷ ws) = w ++ (String.◌∷◌ underscore (join_words (v ∷ ws)))

abbrev pub is_empty_text : String → Bool
is_empty_text s = s =ˢ ""
