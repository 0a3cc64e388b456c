-- ===== src/Examples/Gaps.antt =====
-- A run of both analyses with nothing open, and probes that found nothing.
use frama_c_mcp.Verdicts.{value_marker}
use frama_c_mcp.Verdicts.{property_is_disproved}
use frama_c_mcp.Verdicts.{property_is_dead}
use frama_c_mcp.Verdicts.{property_is_assumed_valid}
use frama_c_mcp.Verdicts.{goals_for_property_all_valid}
use frama_c_mcp.Verdicts.{goal_is_valid_under_hypotheses}
use frama_c_mcp.Verdicts.{check_goal_counts_as_progress}
use frama_c_mcp.Check.Rows.{wp_goal_gaps}
use frama_c_mcp.Check.Rows.{proved_goal_gap}
use frama_c_mcp.Check.Rows.{lemma_markers}
use frama_c_mcp.Check.Rows.{judged_goal_gaps}
use frama_c_mcp.Check.Rows.{goals_gaps}
use frama_c_mcp.Check.Proofread.{proofread_finding_gaps}
use frama_c_mcp.Check.Proofread.{findings_gaps}
use frama_c_mcp.Check.Proofread.{finding_gap}
use frama_c_mcp.Check.Load.{unclassified_gap}
use frama_c_mcp.Check.Load.{unclassified}
use frama_c_mcp.Check.Load.{classified_gaps}
use frama_c_mcp.Check.Load.{ast_soundness_reason}
use frama_c_mcp.Verdicts.{property_is_unproved_lemma}
use frama_c_mcp.Verdicts.{property_is_disproved_reachability}
use frama_c_mcp.Verdicts.{is_generated_alarm}
use frama_c_mcp.Verdicts.{alarm_is_undischarged}
use frama_c_mcp.Verdicts.{property_normalized_status}
use frama_c_mcp.Verdicts.{property_is_inconsistent}
use frama_c_mcp.Check.Rows.{row_finding}
use frama_c_mcp.Check.Rows.{rows_gaps}
use frama_c_mcp.Check.Rows.{property_row_gaps}
use frama_c_mcp.Check.Variants.{variant_program_key}
use frama_c_mcp.Check.Probes.{sum_counts}
use frama_c_mcp.Check.Probes.{unparsed_hypothesis_warnings}
use frama_c_mcp.Check.Probes.{hypothesis_entries}
use frama_c_mcp.Check.Probes.{parsed_hypothesis_entries}
use frama_c_mcp.Check.Probes.{summary_gaps}
use frama_c_mcp.Check.Target.{placed_at}
use frama_c_mcp.Check.Target.{blocked_by}
use frama_c_mcp.Check.Target.{goal_target}
use frama_c_mcp.Check.Target.{goal_id_after_owner}
use frama_c_mcp.Check.Target.{target_entry}
use frama_c_mcp.Prelude.{
  String, ◌≡◌, refl, true, false, none, some, [], ◌∷◌, all, any, not, ◌&&◌, ◌||◌, if◌then◌else◌,
  put, lookup,
}
use frama_c_mcp.Json.{
  Value, null, boolean, number, string, obj, arr, at, find_field, get, as_array, unwrap_or,
}
use frama_c_mcp.Status.{own_status, is_proved, status_is_vacuous, own_status_is_proved, own_status}
use frama_c_mcp.Check.{
  WantedAnalyses, check_step_failed, eva_unfinished_state, unrequested_analysis_gaps, eva_failed,
  wp_failed, step_failure_gaps,
}
use frama_c_mcp.Check.Load.{ast_diagnostic_gaps, compile_flags_dropped_gap}
use frama_c_mcp.Check.Items.{check_incomplete_items}
use frama_c_mcp.Check.Target.{
  functional, termination, target_name, is_of, place, target_by_id, established_by_target,
}
use frama_c_mcp.Check.Target.Holds.{is_elsewhere, established_by_target_lem}
use frama_c_mcp.Check.Probes.{
  smoke_test_gaps, memory_model_hypothesis_gap, memory_model_unchecked_gap,
}
use frama_c_mcp.Check.Probes.Quiet.{
  IsSmokeFree, smoke_test_gaps-IsSmokeFree, IsMemoryQuiet, memory_gaps-IsMemoryQuiet,
}
use frama_c_mcp.Check.Variants.{is_own_proof, check_variants_summary, check_variants_summary_lem}
use frama_c_mcp.Check.Items.Sound.{IsComplete, check_incomplete_items-IsComplete}

abbrev same : String → String
same s = s

abbrev done : Value
done = obj (
    ("ok", boolean true)
    ∷ ("computation_state", string "computed")
    ∷ ("drained", boolean true)
    ∷ [])

-- the front end met no category of diagnostics
abbrev load : Value
load = obj (
    ("ok", boolean true)
    ∷ (
      "ast_reload_health",
      obj (
          (
            "parse_diagnostics",
            obj (
                (
                  "categories",
                  obj (
                      ("kernel:asm:clobber", obj (("count", number 0) ∷ []))
                      ∷ ("kernel:other", obj (("count", number 0) ∷ []))
                      ∷ []),
                )
                ∷ []),
          )
          ∷ []),
    )
    ∷ ("compilation_database_dropped_flags", obj [])
    ∷ [])

-- A goal that counts as progress, one that was proved of a live property and does not, and a lemma's.
abbrev goals : Value
goals = arr (
    obj (("wpo", string "typed_f_ensures") ∷ ("fct", string "f") ∷ ("status", string "VALID") ∷ [])
    ∷ obj (
        ("wpo", string "typed_f_assigns")
        ∷ ("fct", string "f")
        ∷ ("status", string "VALID")
        ∷ ("counts_as_progress", boolean false)
        ∷ [])
    ∷ obj (
        ("wpo", string "typed_lemma_l")
        ∷ ("property", string "#l")
        ∷ ("status", string "VALID")
        ∷ ("normalized_status", string "valid")
        ∷ ("counts_as_progress", boolean false)
        ∷ [])
    ∷ [])

abbrev both : WantedAnalyses
both = record { eva = true; wp = true }

abbrev rows : Value
rows = arr (
    obj (("kind", string "assert") ∷ ("status", string "valid") ∷ ("marker", string "#p1") ∷ [])
    ∷ obj (("kind", string "lemma") ∷ ("status", string "valid") ∷ ("marker", string "#l") ∷ [])
    ∷ [])

nothing_open : check_incomplete_items same (some true) load done rows done goals both ≡ []
unfolding check_incomplete_items ast_diagnostic_gaps find_field compile_flags_dropped_gap
    unrequested_analysis_gaps step_failure_gaps check_step_failed eva_unfinished_state
    property_row_gaps rows_gaps row_finding property_is_inconsistent property_normalized_status
    own_status alarm_is_undischarged is_generated_alarm property_is_disproved_reachability
    property_is_unproved_lemma ast_soundness_reason classified_gaps unclassified unclassified_gap
    finding_gap findings_gaps proofread_finding_gaps goals_gaps judged_goal_gaps lemma_markers
    proved_goal_gap wp_goal_gaps eva_failed wp_failed lookup put is_proved own_status_is_proved
    status_is_vacuous check_goal_counts_as_progress goal_is_valid_under_hypotheses
    goals_for_property_all_valid property_is_assumed_valid property_is_dead property_is_disproved
    value_marker
nothing_open = refl

check_incomplete_items-IsComplete_example : IsComplete (some true) load done rows done goals both
check_incomplete_items-IsComplete_example =
    check_incomplete_items-IsComplete same (some true) load done rows done goals both nothing_open

abbrev timed_out : Value
timed_out = obj (("code", string "GOAL_NOT_VALID") ∷ ("stable_goal_id", string "g2") ∷ [])

-- one goal of each target, that of termination not proved
abbrev mixed_goals : Value
mixed_goals = arr (
    obj (
      ("wpo", string "typed_f_ensures")
      ∷ ("fct", string "f")
      ∷ ("status", string "VALID")
      ∷ ("stable_goal_id", string "g1")
      ∷ [])
    ∷ obj (
        ("wpo", string "typed_f_terminates")
        ∷ ("fct", string "f")
        ∷ ("status", string "TIMEOUT")
        ∷ ("stable_goal_id", string "g2")
        ∷ [])
    ∷ [])

established_by_target_lem_example :
    at (at (established_by_target mixed_goals (timed_out ∷ [])) (target_name functional)) "holds"
    ≡ boolean (
        any (is_of functional) (unwrap_or (as_array mixed_goals) [])
        && all
            (λ goal. not (is_of functional goal) || own_status_is_proved goal)
            (unwrap_or (as_array mixed_goals) [])
        && all
            (is_elsewhere (target_by_id [] (unwrap_or (as_array mixed_goals) [])) functional)
            (timed_out ∷ []))
established_by_target_lem_example =
    established_by_target_lem mixed_goals (timed_out ∷ []) functional

holds_without_termination :
    at (at (established_by_target mixed_goals (timed_out ∷ [])) (target_name functional)) "holds"
    ≡ boolean true
unfolding established_by_target find_field target_name target_entry place goal_id_after_owner
    goal_target own_status_is_proved own_status is_proved blocked_by placed_at lookup target_by_id
    put
holds_without_termination = refl

fails_in_termination :
    at (at (established_by_target mixed_goals (timed_out ∷ [])) (target_name termination)) "holds"
    ≡ boolean false
unfolding established_by_target find_field target_name target_entry place goal_id_after_owner
    goal_target own_status_is_proved own_status is_proved
fails_in_termination = refl

-- A function named after a runtime-error check does not move its goals.
name_is_no_kind :
    is_of functional (
      obj (
        ("wpo", string "typed_parse_rte_header_ensures") ∷ ("fct", string "parse_rte_header") ∷ []))
    ≡ true
unfolding place find_field goal_id_after_owner goal_target
name_is_no_kind = refl

-- A goal that timed out, and whose property something else established: no gap, and its target does not hold.
abbrev carried : Value
carried = arr (
    obj (
      ("wpo", string "typed_f_ensures")
      ∷ ("fct", string "f")
      ∷ ("status", string "TIMEOUT")
      ∷ ("counts_as_progress", boolean true)
      ∷ [])
    ∷ [])

carried_is_no_gap : check_incomplete_items same (some true) done done rows done carried both ≡ []
unfolding check_incomplete_items ast_diagnostic_gaps find_field compile_flags_dropped_gap
    unrequested_analysis_gaps step_failure_gaps check_step_failed eva_unfinished_state
    property_row_gaps rows_gaps row_finding property_is_inconsistent property_normalized_status
    own_status alarm_is_undischarged is_generated_alarm property_is_disproved_reachability
    property_is_unproved_lemma ast_soundness_reason classified_gaps unclassified unclassified_gap
    finding_gap findings_gaps proofread_finding_gaps goals_gaps judged_goal_gaps lemma_markers
    proved_goal_gap wp_goal_gaps eva_failed wp_failed lookup put is_proved own_status_is_proved
    status_is_vacuous check_goal_counts_as_progress goal_is_valid_under_hypotheses
    goals_for_property_all_valid property_is_assumed_valid property_is_dead property_is_disproved
    value_marker
carried_is_no_gap = refl

carried_does_not_hold :
    at (at (established_by_target carried []) (target_name functional)) "holds" ≡ boolean false
unfolding established_by_target find_field target_name target_entry place goal_id_after_owner
    goal_target own_status_is_proved own_status is_proved
carried_does_not_hold = refl

abbrev smoked : Value
smoked = obj (
    (
      "smoke_probe",
      obj (
          ("ran", boolean true)
          ∷ ("passed", number 2)
          ∷ ("total", number 2)
          ∷ ("failed", arr [])
          ∷ []),
    )
    ∷ [])

smoke_free : smoke_test_gaps true smoked ≡ []
unfolding smoke_test_gaps find_field summary_gaps
smoke_free = refl

smoke_test_gaps-IsSmokeFree_example :
    (probe : Value) × (get smoked "smoke_probe" ≡ some probe) × IsSmokeFree probe
smoke_test_gaps-IsSmokeFree_example = smoke_test_gaps-IsSmokeFree smoked smoke_free

abbrev silent : Value
silent = obj (("ran", boolean true) ∷ ("hypotheses", arr (obj (("function", null) ∷ []) ∷ [])) ∷ [])

no_hypothesis : memory_model_hypothesis_gap silent ≡ none
unfolding memory_model_hypothesis_gap find_field parsed_hypothesis_entries hypothesis_entries
no_hypothesis = refl

no_doubt : memory_model_unchecked_gap silent both ≡ none
unfolding memory_model_unchecked_gap find_field unparsed_hypothesis_warnings sum_counts
    hypothesis_entries
no_doubt = refl

memory_gaps-IsMemoryQuiet_example : IsMemoryQuiet silent
unfolding find_field
memory_gaps-IsMemoryQuiet_example =
    memory_gaps-IsMemoryQuiet silent both refl refl no_hypothesis no_doubt

abbrev variant : String → Value
variant digest = obj (("verdict", string "proved") ∷ ("ast_digest", string digest) ∷ [])

check_variants_summary_lem_example :
    at (check_variants_summary (variant "a" ∷ variant "b" ∷ [])) "verdict"
    ≡ string (if all is_own_proof (variant "a" ∷ variant "b" ∷ []) then "proved" else "incomplete")
check_variants_summary_lem_example = check_variants_summary_lem (variant "a" ∷ variant "b" ∷ [])

two_programs :
    at (check_variants_summary (variant "a" ∷ variant "b" ∷ variant "a" ∷ [])) "distinct_asts"
    ≡ number 2
unfolding check_variants_summary find_field variant_program_key
two_programs = refl
