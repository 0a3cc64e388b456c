-- ===== src/Check/Proofread.antt =====
-- Gaps of the proofreading of a run (src/mcp/checkgaps.rs, `proofread_finding_gaps`).
use frama_c_mcp.Prelude.{String, none, some, List, [], ◌∷◌, ◌++◌, lookup, if◌then◌else◌}
use frama_c_mcp.Json.{Value, string, obj, at, get, get_str, as_array, and_then, unwrap_or, is_text}
use frama_c_mcp.Check.{copied}

abbrev worded : String → Value → String → String → List (String × Value) → Value
worded code finding key default_reason fields = obj (
    ("code", string code)
    ∷ ("reason", unwrap_or (get finding key) (string default_reason))
    ∷ fields)

-- The finding of a proof that rests on a goal of this run that was judged.
unfoldable pub unproved_assumption_gap : List (String × Value) → Value → List Value
unproved_assumption_gap judged finding =
    elim (and_then (get_str finding "wpo") (λ wpo. lookup wpo judged)) [
      | none ↦ []
      | some goal ↦
          worded "UNPROVED_ASSUMPTION" finding "why_problem"
            "WP assumes an unproved assertion or postcondition, so a goal reported valid may rest on it."
            (copied "function" finding
              ∷ copied "stable_goal_id" goal
              ∷ ("frama_c_goal_name", at finding "trigger")
              ∷ ("goal_kind", at finding "clause_or_goal_kind")
              ∷ [])
          ∷ []
    ]

unfoldable pub finding_gap : List (String × Value) → Value → List Value
unfolding unproved_assumption_gap
finding_gap judged finding =
    let category = get_str finding "category" in
    if is_text category "unproved_assumption"
    then unproved_assumption_gap judged finding
    else if is_text category "result_unconstrained"
    then worded "RESULT_UNCONSTRAINED" finding "message"
        "The contract bounds the result without determining it."
        (copied "function" finding
          ∷ copied "result_range" finding
          ∷ copied "undetermined_results" finding
          ∷ [])
      ∷ []
    else if is_text category "unconstrained_assigns"
    then worded "UNCONSTRAINED_ASSIGNS" finding "message"
        "The contract assigns a location no postcondition constrains."
        (copied "function" finding ∷ copied "assigns_target" finding ∷ [])
      ∷ []
    else if is_text category "unresolved_call"
    then worded "INDIRECT_CALL_UNRESOLVED" finding "message"
        "A call names no callee, so WP assumed it could reach any function."
        (copied "function" finding
          ∷ copied "callee_expression" finding
          ∷ copied "stmt_id" finding
          ∷ copied "source_location" finding
          ∷ ("reports", string "the call shape, not whether a calls clause is present")
          ∷ [])
      ∷ []
    else if is_text category "assumed_callee_contract"
    then worded "ASSUMED_CALLEE_CONTRACT" finding "message"
        "WP relied on a direct callee contract with no finite assigns clause."
        (copied "function" finding
          ∷ copied "callee" finding
          ∷ copied "source_location" finding
          ∷ [])
      ∷ []
    else []

unfoldable pub findings_gaps : List (String × Value) → List Value → List Value
findings_gaps judged [] = []
findings_gaps judged (finding ∷ rest) = finding_gap judged finding ++ findings_gaps judged rest

abbrev pub proofread_findings : Value → List Value
proofread_findings wp =
    unwrap_or (and_then (and_then (get wp "proofread_report") (λ r. get r "findings")) as_array) []

unfoldable pub proofread_finding_gaps : Value → List (String × Value) → List Value
unfolding findings_gaps
proofread_finding_gaps wp judged = findings_gaps judged (proofread_findings wp)
