-- ===== src/Examples/Failures.antt =====
-- A goal that timed out, whose text names a loop invariant, and the labels of two goals.
use frama_c_mcp.Json.{find_field}
use frama_c_mcp.Check.Target.{goal_id_after_owner}
use frama_c_mcp.Wp.Failure.{alnum_parts}
use frama_c_mcp.Wp.Failure.{text_has_word}
use frama_c_mcp.Wp.Failure.{contract_advice}
use frama_c_mcp.Wp.Failure.{text_advice}
use frama_c_mcp.Status.{status_is_timeout}
use frama_c_mcp.Wp.Failure.{first_advice}
use frama_c_mcp.Prelude.{◌≡◌, refl, true, false, not, ◌&&◌, ◌=ˢ◌, none, some, [], ◌∷◌}
use frama_c_mcp.Json.{string, obj, get_str, is_text}
use frama_c_mcp.Wp.Failure.{classify_failure_reason, classify_wp_goal, timed_out, text_has_word}
use frama_c_mcp.Wp.Route.{
  wp_failure_kind, runtime_checkable_claim, runtime_check_suggestion, semantic_wp_verdict,
  next_tool_of,
}
use frama_c_mcp.Wp.Route.Agree.{is_self_check, semantic_wp_verdict_lem}
use frama_c_mcp.Wp.Failure.Order.{classify_failure_reason_lem}

classify_failure_reason_lem_example :
    (((classify_failure_reason "timeout" "Timeout" "terminates" "sum_terminates" "loop variant"
          true).0.category
        =ˢ "termination_unproved")
      ≡ ("terminates" =ˢ "terminates" && timed_out "timeout" "Timeout"))
    × (((classify_failure_reason "timeout" "Timeout" "terminates" "sum_terminates" "loop variant"
            true).0.category
          =ˢ "timeout")
        ≡ (not ("terminates" =ˢ "terminates") && timed_out "timeout" "Timeout"))
classify_failure_reason_lem_example =
    classify_failure_reason_lem "timeout" "Timeout" "terminates" "sum_terminates" "loop variant"
      true

the_text_decides_past_timeouts :
    (classify_failure_reason "unknown" "Unknown" "spec" "sum_loop_invariant" "loop invariant"
      false).0.category
    ≡ "weak_loop_invariant"
unfolding classify_failure_reason first_advice status_is_timeout text_advice contract_advice
    text_has_word alnum_parts
the_text_decides_past_timeouts = refl

the_label_decides_the_kind :
    classify_wp_goal
      (λ name. none)
      (obj (("name", string "typed_f_assert_rte_signed_overflow") ∷ []))
    ≡ ("rte_overflow", none)
unfolding classify_wp_goal goal_id_after_owner find_field
the_label_decides_the_kind = refl

a_word_is_a_whole_word : text_has_word "loop invariant" "variant" ≡ false
unfolding text_has_word alnum_parts
a_word_is_a_whole_word = refl

semantic_wp_verdict_lem_example :
    is_text
      (get_str
        (semantic_wp_verdict "missing_prover" (runtime_check_suggestion "missing_prover" "spec"))
        "kind")
      "backend_unavailable"
    ≡ is_self_check
        (next_tool_of (wp_failure_kind "missing_prover" "none") (some "main") "Install one.")
semantic_wp_verdict_lem_example =
    semantic_wp_verdict_lem "missing_prover" "spec" "Install one." (some "main")

a_triage_decides_first : wp_failure_kind "missing_prover" "prover_timeout" ≡ "prover_timeout"
unfolding wp_failure_kind
a_triage_decides_first = refl

a_runtime_check_can_be_made : runtime_checkable_claim "timeout" "rte_bound" ≡ true
unfolding runtime_checkable_claim
a_runtime_check_can_be_made = refl
