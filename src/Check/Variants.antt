-- ===== src/Check/Variants.antt =====
-- The summary over the variants of a check (src/mcp/checkgaps.rs, `variant_program_key` and
-- `check_variants_summary`).
use Prim.Native.Char.{nul}
use Prim.Native.String.{◌++◌ as append}
use frama_c_mcp.Prelude.{
  ◌≡◌, refl, ℕ, suc, String, Bool, Bool-cases, inl, inr, ◌&&◌, not, Option, none, some, List, [],
  ◌∷◌, any, all, filter_by, length, ◌=ˢ◌, ◌==◌, ltb, if◌then◌else◌, arith,
}
use frama_c_mcp.Json.{
  Value, null, number, string, obj, arr, at, get, get_str, and_then, or_else, unwrap_or, is_some,
  is_text, find_field,
}

unfoldable pub variant_program_key : Value → Option String
variant_program_key entry = and_then (get_str entry "ast_digest") (λ digest. some (
    append digest (
      String.◌∷◌ nul
        (unwrap_or (or_else (get_str entry "machdep_digest") (get_str entry "machdep")) ""))))

-- the keys of the entries that have one
program_keys : List Value → List String
program_keys [] = []
program_keys (entry ∷ rest) = elim (variant_program_key entry) [
  | none ↦ program_keys rest
  | some key ↦ key ∷ program_keys rest
]

-- how many different texts a list has
distinct : List String → ℕ
distinct [] = 0
distinct (s ∷ rest) = let n = distinct rest in if any (λ t. t =ˢ s) rest then n else suc n

abbrev has_duplicate : Value → Bool
has_duplicate entry = is_some (get entry "duplicate_ast")

abbrev is_proved_variant : Value → Bool
is_proved_variant entry = is_text (get_str entry "verdict") "proved"

abbrev is_undigested : Value → Bool
is_undigested entry = not (is_some (get_str entry "ast_digest"))

summary_reason : ℕ → ℕ → Value
summary_reason duplicates unestablished =
    if ltb 0 duplicates
    then string
        "Two or more variants asked for different code and analysed byte-identical ASTs, so they are one configuration checked twice rather than several checked once. Equal goal counts cannot show this; the digests can. Variants that differ only in the WP model are not counted here: no proof option changes the AST, so sharing one is expected."
    else if ltb 0 unestablished
    then string
        "At least one variant has no AST digest, so it was compared to nothing and this run cannot say whether the configurations differ. Read proof_receipt.subject.ast_digest_unavailable_reason on that variant: the usual causes are the ast-utils plug-in not being installed and printSource outrunning its budget on a large project."
    else null

unfoldable pub check_variants_summary : List Value → Value
unfolding program_keys distinct summary_reason
check_variants_summary results =
    let duplicates = length (filter_by has_duplicate results) in
    let unestablished = length (filter_by is_undigested results) in
    obj (
      ("schema", string "frama-c-mcp.check-variants.v2")
      ∷ (
        "verdict",
        string (
            if duplicates == 0 && unestablished == 0 && all is_proved_variant results
            then "proved"
            else "incomplete"),
      )
      ∷ ("variant_count", number (length results))
      ∷ ("distinct_asts", number (distinct (program_keys results)))
      ∷ ("duplicate_ast_count", number duplicates)
      ∷ ("ast_digest_unavailable_count", number unestablished)
      ∷ ("reason", summary_reason duplicates unestablished)
      ∷ ("variants", arr results)
      ∷ [])

-- A variant that was proved, that was compared, and that has a program of its own.
abbrev pub is_own_proof : Value → Bool
is_own_proof entry =
    is_proved_variant entry
    && is_some (get_str entry "ast_digest")
    && not (is_some (get entry "duplicate_ast"))

module _ (p q r : Value → Bool) where
  none_of_two :
      (xs : List Value)
      → (length (filter_by p xs) == 0 && length (filter_by (λ x. not (q x)) xs) == 0 && all r xs)
        ≡ all (λ x. r x && q x && not (p x)) xs
  none_of_two [] = refl
  none_of_two (x ∷ xs) = elim (Bool-cases (p x)) [
    | inl hp ↦ ground arith
    | inr hp ↦ elim (Bool-cases (q x)) [
      | inl hq ↦ ground (arith, none_of_two xs)
      | inr hq ↦ ground arith
    ]
  ]

-- The verdict over the variants is "proved" when each was proved, has a digest and is no duplicate of
-- another, and "incomplete" otherwise.
pub check_variants_summary_lem :
    (results : List Value)
    → at (check_variants_summary results) "verdict"
      ≡ string (if all is_own_proof results then "proved" else "incomplete")
unfolding check_variants_summary find_field
check_variants_summary_lem results = rw (
    none_of_two has_duplicate (λ entry. is_some (get_str entry "ast_digest")) is_proved_variant
      results)
