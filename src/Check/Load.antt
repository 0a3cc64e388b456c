-- ===== src/Check/Load.antt =====
-- Gaps of the load (src/mcp/checkgaps.rs, `ast_diagnostic_gaps` and `compile_flags_dropped_gap`).
use frama_c_mcp.Prelude.{
  String, Bool, ◌&&◌, ◌||◌, not, Option, none, some, List, [], ◌∷◌, ◌++◌, any, is_empty, ◌==◌, ◌=ˢ◌,
  if◌then◌else◌,
}
use frama_c_mcp.Json.{
  Value, string, object, Fields, entries, of_entries, at, get, as_str, as_u64, as_object, and_then,
  unwrap_or, is_some, find_field,
}
use frama_c_mcp.Check.{gap, copied}

-- `project::ASM_CLOBBER` and `project::ATTRS_UNKNOWN`
abbrev asm_clobber : String
asm_clobber = "kernel:asm:clobber"

abbrev attrs_unknown : String
attrs_unknown = "kernel:attrs:unknown"

unfoldable pub ast_soundness_reason : String → Option (String × String)
ast_soundness_reason category =
    if category =ˢ asm_clobber
    then some (
      "AST_ASM_CLOBBER",
      "Frama-C assumed inline assembly has no effects beyond its operands, so the analyzed statement is weaker than the compiled one.",
    )
    else if category =ˢ attrs_unknown
    then some (
      "AST_UNKNOWN_ATTRIBUTE",
      "Frama-C ignored an unknown attribute, so the analyzed declaration differs from the source.",
    )
    else none

abbrev pub has_count : Value → Bool
has_count record_of = not (unwrap_or (as_u64 (at record_of "count")) 0 == 0)

-- the gaps of the categories that have a code of their own
unfoldable pub classified_gaps : List (String × Value) → List Value
classified_gaps [] = []
classified_gaps ((category, r) ∷ rest) =
    let more = classified_gaps rest in
    if has_count r
    then (elim (ast_soundness_reason category) [
      | none ↦ more
      | some (code, reason) ↦
          gap code reason (
            ("category", string category)
            ∷ copied "count" r
            ∷ copied "count_unit" r
            ∷ copied "locations" r
            ∷ copied "locations_omitted" r
            ∷ [])
          ∷ more
    ])
    else more

-- the others, less those on the list
unfoldable pub unclassified : List String → List (String × Value) → List (String × Value)
unclassified allowlist [] = []
unclassified allowlist ((category, r) ∷ rest) =
    let more = unclassified allowlist rest in
    if has_count r
      && not (is_some (ast_soundness_reason category))
      && not (any (λ allowed. allowed =ˢ category) allowlist)
    then (category, r) ∷ more
    else more

unfoldable pub unclassified_gap : List (String × Value) → List Value
unclassified_gap [] = []
unclassified_gap (c ∷ cs) =
    gap "AST_UNCLASSIFIED_WARNING"
      "Frama-C emitted parse warnings in categories this server has not classified, so their effect on the analyzed program is unknown."
      (("categories", object (of_entries (c ∷ cs))) ∷ [])
    ∷ []

unfoldable pub ast_diagnostic_gaps : Value → List String → List Value
unfolding classified_gaps unclassified unclassified_gap
ast_diagnostic_gaps reload allowlist =
    let diagnostics = at (at reload "ast_reload_health") "parse_diagnostics" in
    elim (as_str (at diagnostics "unavailable")) [
      | some reason ↦
          gap "AST_PARSE_DIAGNOSTICS_UNAVAILABLE"
            "This server has no record of what Frama-C's front end dropped while parsing, so nothing here says the analyzed program is the compiled one."
            (("detail", string reason) ∷ [])
          ∷ []
      | none ↦ elim (as_object (at diagnostics "categories")) [
        | none ↦ []
        | some fields ↦
            classified_gaps (entries fields)
            ++ unclassified_gap (unclassified allowlist (entries fields))
      ]
    ]

abbrev no_fields : Fields → Bool
no_fields fs = is_empty (entries fs)

unfoldable pub compile_flags_dropped_gap : Value → Option Value
compile_flags_dropped_gap reload =
    and_then (and_then (get reload "compilation_database_dropped_flags") as_object) (λ flags.
      if no_fields flags || is_some (find_field "unreadable" flags)
      then none
      else some (
          gap "COMPILE_FLAGS_DROPPED"
            "The compilation database builds with flags that change what the program means, and Frama-C drops them on import, so the analyzed program differs from the compiled one."
            (("flags", object flags) ∷ [])))
