-- ===== src/Coverage/Report/Members.antt =====
-- Sorting and dropping doubles keep the names of a list.
use frama_c_mcp.Prelude.{◌≡◌, refl, String, ◌||◌, List, [], ◌∷◌, ◌=ˢ◌, =ˢ_iff, arith}
use frama_c_mcp.Receipt.{sort_texts, insert_sorted}
use frama_c_mcp.Coverage.Rows.{is_in, dedup, sorted_names}

is_in-insert_sorted :
    (name s : String) (ss : List String)
    → is_in name (insert_sorted s ss) ≡ (s =ˢ name || is_in name ss)
unfolding insert_sorted
is_in-insert_sorted name s [] = refl
is_in-insert_sorted name s (t ∷ ts) = ground (arith, is_in-insert_sorted name s ts)

is_in-sort_texts : (name : String) (ss : List String) → is_in name (sort_texts ss) ≡ is_in name ss
unfolding sort_texts
is_in-sort_texts name [] = refl
is_in-sort_texts name (s ∷ ss) =
    ground (arith, is_in-insert_sorted name s (sort_texts ss), is_in-sort_texts name ss)

is_in-dedup : (name : String) (ss : List String) → is_in name (dedup ss) ≡ is_in name ss
unfolding dedup
is_in-dedup name [] = refl
is_in-dedup name (s ∷ []) = refl
is_in-dedup name (s ∷ t ∷ rest) =
    ground (arith, is_in-dedup name (t ∷ rest), =ˢ_iff s t, =ˢ_iff s name, =ˢ_iff t name)

pub is_in-sorted_names :
    (name : String) (ss : List String) → is_in name (sorted_names ss) ≡ is_in name ss
unfolding sorted_names
is_in-sorted_names name ss =
    ground (arith, is_in-dedup name (sort_texts ss), is_in-sort_texts name ss)
