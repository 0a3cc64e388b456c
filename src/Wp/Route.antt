-- ===== src/Wp/Route.antt =====
-- Where a failed goal sends its reader (src/mcp/wpclass.rs, `wp_failure_kind`, `runtime_check_suggestion`,
-- `semantic_wp_verdict` and the next tool of `classify_wp_failure_from_goal`).
pub mod Agree
use frama_c_mcp.Prelude.{
  String, Bool, true, false, ◌||◌, not, Option, none, some, List, [], ◌∷◌, any, ◌=ˢ◌, if◌then◌else◌,
}
use frama_c_mcp.Json.{Value, null, string, arr, obj, is_null}
use frama_c_mcp.Wp.Failure.{is_rte}

-- whether a text is one of several
abbrev pub is_one_of : List String → String → Bool
is_one_of texts text = any (λ t. text =ˢ t) texts

-- The triage of timeouts decides first, then the category.
unfoldable pub wp_failure_kind : String → String → String
wp_failure_kind category triage_kind =
    if triage_kind =ˢ "prover_timeout"
    then "prover_timeout"
    else if triage_kind =ˢ "mcp_server_timeout"
    then "mcp_timeout"
    else if triage_kind =ˢ "rejected_task"
    then "request_rejected"
    else if triage_kind =ˢ "cancelled_task"
    then "request_cancelled"
    else if triage_kind =ˢ "status_propagation_delay"
    then "status_pending"
    else if category =ˢ "timeout"
    then "prover_timeout"
    else if category =ˢ "internal_error"
    then "frama_c_internal"
    else if category =ˢ "missing_prover"
    then "missing_prover"
    else if category =ˢ "missing_why3_config"
    then "missing_why3_config"
    else if category =ˢ "request_rejected"
    then "request_rejected"
    else "proof_obligation"

unfoldable pub runtime_checkable_claim : String → String → Bool
runtime_checkable_claim category goal_kind =
    is_one_of
      ("missing_requires" ∷ "callee_requires_too_strict" ∷ "weak_ensures" ∷ "weak_loop_invariant"
        ∷ "rte" ∷ [])
      category
    || goal_kind =ˢ "user_assert"
    || is_rte goal_kind

abbrev e_acsl_wrappers : List Value
e_acsl_wrappers = string "e-acsl-gcc" ∷ string "e-acsl-gcc.sh" ∷ []

abbrev runtime_check_coverage_warning : String
runtime_check_coverage_warning =
    "Runtime checks cover only executed paths and do not validate assigns clauses."

unfoldable pub runtime_check_suggestion : String → String → Value
runtime_check_suggestion category goal_kind =
    if not (runtime_checkable_claim category goal_kind)
    then null
    else obj (
        ("kind", string "external_manual_e_acsl")
        ∷ (
          "reason",
          string
              "WP did not prove this claim; an external E-ACSL run may gather executed-path evidence about code, specification, or prover-strength issues.",
        )
        ∷ (
          "availability",
          obj (
              ("tool", string "self_check")
              ∷ ("field", string "capabilities.e_acsl.available")
              ∷ []),
        )
        ∷ ("manual_tools", arr e_acsl_wrappers)
        ∷ ("coverage_warning", string runtime_check_coverage_warning)
        ∷ [])

-- the kind, the sentence and the tool
pub record Meaning : Type 0 where
  pub kind : String
  pub plain_language : String
  pub next_tool : String

unfoldable pub meaning_of : String → Value → Meaning
meaning_of category suggestion =
    if is_one_of
      ("missing_prover" ∷ "missing_why3_config" ∷ "request_rejected" ∷ "internal_error" ∷ [])
      category
    then (record {
      kind = "backend_unavailable";
      plain_language =
          "WP was blocked by prover, request, or Frama-C setup; no code verdict is available until that is fixed.";
      next_tool = "self_check";
    })
    else if not (is_null suggestion)
    then (record {
      kind = "needs_e_acsl_counterexample";
      plain_language =
          "WP alone cannot prove whether the specification is too weak, the specification is wrong, or the code really violates the property; collect an E-ACSL counterexample before reporting an implementation defect.";
      next_tool = "self_check";
    })
    else if category =ˢ "prover_unknown"
    then (record {
      kind = "specification_too_weak";
      plain_language =
          "WP did not provide enough semantic evidence; inspect the VC before changing code or ACSL.";
      next_tool = "get_wp_goals";
    })
    else if is_one_of ("unsupported_predicate" ∷ "incomplete_behavior_partition" ∷ []) category
    then (record {
      kind = "specification_wrong";
      plain_language =
          "The ACSL shape is likely wrong for this proof obligation; correct the unsupported predicate or behavior split.";
      next_tool = "get_wp_goals";
    })
    else (record {
      kind = "specification_too_weak";
      plain_language =
          "The ACSL facts visible to WP are likely too weak for this proof obligation.";
      next_tool = "get_wp_goals";
    })

unfoldable pub semantic_wp_verdict : String → Value → Value
semantic_wp_verdict category suggestion =
    let meaning = meaning_of category suggestion in
    obj (
      ("kind", string meaning.kind)
      ∷ ("plain_language", string meaning.plain_language)
      ∷ ("next_tool", string meaning.next_tool)
      ∷ ("runtime_check_suggestion", suggestion)
      ∷ [])

-- the action that a failure of this kind asks for, about a function or about all
unfoldable pub next_tool_of : String → Option String → String → Value
next_tool_of failure_kind function reason =
    if is_one_of
      ("missing_prover" ∷ "missing_why3_config" ∷ "request_rejected" ∷ "frama_c_internal" ∷ [])
      failure_kind
    then obj (("tool", string "self_check") ∷ ("args", obj []) ∷ ("reason", string reason) ∷ [])
    else elim function [
      | none ↦
          obj (("tool", string "get_wp_goals") ∷ ("args", obj []) ∷ ("reason", string reason) ∷ [])
      | some f ↦ obj (
          ("tool", string "get_wp_goals")
          ∷ ("args", obj (("want", arr (string "vc" ∷ [])) ∷ ("function", string f) ∷ []))
          ∷ ("reason", string reason)
          ∷ [])
    ]
