-- ===== src/Check/Items/Append.antt =====
-- Lists of gaps, appended.
use frama_c_mcp.Prelude.{◌≡◌, refl, Option, none, some, List, [], ◌∷◌, ◌++◌, arith}
use frama_c_mcp.Json.{Value}
use frama_c_mcp.Check.Items.{option_list}

pub empty-append : (xs ys : List Value) → xs ++ ys ≡ [] → (xs ≡ []) × (ys ≡ [])
empty-append [] ys h = (refl, h)
empty-append (x ∷ xs) ys h = absurd (ground arith)

-- the parts of an append of seven lists that is empty
pub seven-empty :
    (a b c d e f g : List Value)
    → a ++ b ++ c ++ d ++ e ++ f ++ g ≡ []
    → (a ≡ []) × (b ≡ []) × (c ≡ []) × (d ≡ []) × (e ≡ []) × (f ≡ []) × (g ≡ [])
seven-empty a b c d e f g h =
    let (h6, hg) = empty-append (a ++ b ++ c ++ d ++ e ++ f) g h in
    let (h5, hf) = empty-append (a ++ b ++ c ++ d ++ e) f h6 in
    let (h4, he) = empty-append (a ++ b ++ c ++ d) e h5 in
    let (h3, hd) = empty-append (a ++ b ++ c) d h4 in
    let (h2, hc) = empty-append (a ++ b) c h3 in
    let (ha, hb) = empty-append a b h2 in (ha, hb, hc, hd, he, hf, hg)

pub option_list-none : (o : Option Value) → option_list o ≡ [] → o ≡ none
option_list-none none h = refl
option_list-none (some v) h = absurd (ground arith)
