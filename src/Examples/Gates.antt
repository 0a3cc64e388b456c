-- ===== src/Examples/Gates.antt =====
-- A whole run of a check with nothing open, and messages of work that was skipped.
use frama_c_mcp.Verdicts.{value_marker}
use frama_c_mcp.Verdicts.{property_normalized_status}
use frama_c_mcp.Verdicts.{property_is_unproved_lemma}
use frama_c_mcp.Verdicts.{property_is_inconsistent}
use frama_c_mcp.Verdicts.{property_is_disproved_reachability}
use frama_c_mcp.Verdicts.{property_is_disproved}
use frama_c_mcp.Verdicts.{property_is_dead}
use frama_c_mcp.Verdicts.{property_is_assumed_valid}
use frama_c_mcp.Verdicts.{is_generated_alarm}
use frama_c_mcp.Verdicts.{goals_for_property_all_valid}
use frama_c_mcp.Verdicts.{goal_needs_failure_classification}
use frama_c_mcp.Verdicts.{goal_is_valid_under_hypotheses}
use frama_c_mcp.Verdicts.{goal_is_vacuously_proved}
use frama_c_mcp.Verdicts.{alarm_is_undischarged}
use frama_c_mcp.Status.{status_is_vacuous}
use frama_c_mcp.Status.{status_is_failed}
use frama_c_mcp.Prelude.{List, first_line}
use frama_c_mcp.Prelude.{List, put}
use frama_c_mcp.Prelude.{List, lookup}
use frama_c_mcp.Prelude.{List, decimal}
use frama_c_mcp.Json.Same.{same_value}
use frama_c_mcp.Check.{wp_failed}
use frama_c_mcp.Check.{eva_failed}
use frama_c_mcp.Check.Rows.{row_finding}
use frama_c_mcp.Check.Rows.{proved_goal_gap}
use frama_c_mcp.Check.Rows.{lemma_markers}
use frama_c_mcp.Check.Rows.{judged_goal_gaps}
use frama_c_mcp.Check.Rows.{goals_gaps}
use frama_c_mcp.Check.Proofread.{findings_gaps}
use frama_c_mcp.Check.Proofread.{finding_gap}
use frama_c_mcp.Check.Probes.{unparsed_hypothesis_warnings}
use frama_c_mcp.Check.Probes.{summary_gaps}
use frama_c_mcp.Check.Probes.{sum_counts}
use frama_c_mcp.Check.Probes.{parsed_hypothesis_entries}
use frama_c_mcp.Check.Probes.{memory_model_unchecked_gap}
use frama_c_mcp.Check.Probes.{hypothesis_entries}
use frama_c_mcp.Check.Probes.{has_parsed_hypothesis_entry}
use frama_c_mcp.Check.Messages.{record_message}
use frama_c_mcp.Check.Messages.{message_code}
use frama_c_mcp.Check.Messages.{gap_of}
use frama_c_mcp.Check.Messages.{add_locations}
use frama_c_mcp.Check.Load.{unclassified_gap}
use frama_c_mcp.Check.Load.{unclassified}
use frama_c_mcp.Check.Load.{classified_gaps}
use frama_c_mcp.Check.Load.{ast_soundness_reason}
use frama_c_mcp.Check.Gates.{why3_aborted}
use frama_c_mcp.Check.Gates.{scan_message}
use frama_c_mcp.Check.Gates.{changed_gap}
use frama_c_mcp.Check.Gates.{anomaly_advice}
use frama_c_mcp.Check.Probes.{memory_model_hypothesis_gap}
use frama_c_mcp.Check.Messages.{message_gaps}
use frama_c_mcp.Check.Gates.{withheld_by_request_gaps}
use frama_c_mcp.Check.Probes.{smoke_test_gaps}
use frama_c_mcp.Check.Gates.{goals_changed}
use frama_c_mcp.Check.Gates.{scan_messages}
use frama_c_mcp.Check.Gates.{wp_backend_anomaly_left_goal_unjudged}
use frama_c_mcp.Check.Gates.{run_evidence_gates}
use frama_c_mcp.Check.Proofread.{proofread_finding_gaps}
use frama_c_mcp.Status.{is_proved}
use frama_c_mcp.Status.{own_status}
use frama_c_mcp.Status.{own_status_is_proved}
use frama_c_mcp.Verdicts.{check_goal_counts_as_progress}
use frama_c_mcp.Check.Rows.{wp_goal_gaps}
use frama_c_mcp.Check.Rows.{rows_gaps}
use frama_c_mcp.Check.Rows.{property_row_gaps}
use frama_c_mcp.Check.{eva_unfinished_state}
use frama_c_mcp.Check.{check_step_failed}
use frama_c_mcp.Check.{step_failure_gaps}
use frama_c_mcp.Check.{unrequested_analysis_gaps}
use frama_c_mcp.Check.Load.{compile_flags_dropped_gap}
use frama_c_mcp.Json.{find_field}
use frama_c_mcp.Check.Load.{ast_diagnostic_gaps}
use frama_c_mcp.Check.Items.{check_incomplete_items}
use frama_c_mcp.Check.{verdict_of}
use frama_c_mcp.Prelude.{List, trim}
use frama_c_mcp.Check.Messages.{selectors_of}
use frama_c_mcp.Prelude.{List, split_on}
use frama_c_mcp.Check.Messages.{flat_selectors}
use frama_c_mcp.Prelude.{
  List, String, ◌≡◌, refl, true, false, not, some, none, [], ◌∷◌, any, all, is_empty, ◌=ˢ◌,
}
use frama_c_mcp.Json.{Value, boolean, number, string, obj, arr}
use frama_c_mcp.Check.Items.Sound.{IsComplete}
use frama_c_mcp.Check.Messages.{weakening_model_selectors, weakened_gap, wp_message_gaps}
use frama_c_mcp.Check.Messages.Shown.{is_reported, wp_message_gaps-is_reported}
use frama_c_mcp.Check.Messages.Weakened.{is_weakened}
use frama_c_mcp.Check.Gates.{RunEvidenceInputs, wp_backend_diagnosis, check_verdict}
use frama_c_mcp.Check.Gates.Evidenced.{IsEvidenced, check_verdict-IsEvidenced}

abbrev same : String → String
same s = s

abbrev done : Value
done = obj (
    ("ok", boolean true)
    ∷ ("computation_state", string "computed")
    ∷ ("drained", boolean true)
    ∷ ("effective_wp_config", obj (("model", string "Typed+nocast") ∷ []))
    ∷ ("measurement", obj (("goals", number 1) ∷ []))
    ∷ [])

abbrev goals : Value
goals = arr (
    obj (("wpo", string "typed_f_ensures") ∷ ("fct", string "f") ∷ ("status", string "VALID") ∷ [])
    ∷ [])

abbrev input : RunEvidenceInputs
input = record {
  wanted = record { eva = true; wp = true };
  requested_smoke = false;
  rte = true;
  narrowed_by_prop = none;
  messages = [];
  messages_truncated = false;
  wp = done;
  wp_goals = goals;
  unsigned_skipped = false;
  memory_model = obj (("ran", boolean true) ∷ ("hypotheses", arr []) ∷ []);
}

is_proved_run : (check_verdict same input done done (arr []) [] =ˢ "proved") ≡ true
unfolding check_verdict verdict_of check_incomplete_items ast_diagnostic_gaps find_field
    compile_flags_dropped_gap unrequested_analysis_gaps step_failure_gaps check_step_failed
    eva_unfinished_state property_row_gaps rows_gaps wp_goal_gaps check_goal_counts_as_progress
    own_status_is_proved own_status is_proved proofread_finding_gaps run_evidence_gates
    wp_backend_anomaly_left_goal_unjudged wp_backend_diagnosis scan_messages goals_changed
    smoke_test_gaps withheld_by_request_gaps wp_message_gaps message_gaps weakened_gap
    weakening_model_selectors flat_selectors split_on selectors_of trim memory_model_hypothesis_gap
    anomaly_advice changed_gap scan_message why3_aborted ast_soundness_reason classified_gaps
    unclassified unclassified_gap add_locations gap_of message_code record_message
    has_parsed_hypothesis_entry hypothesis_entries memory_model_unchecked_gap
    parsed_hypothesis_entries sum_counts summary_gaps unparsed_hypothesis_warnings finding_gap
    findings_gaps goals_gaps judged_goal_gaps lemma_markers proved_goal_gap row_finding eva_failed
    wp_failed same_value decimal lookup put first_line status_is_failed status_is_vacuous
    alarm_is_undischarged goal_is_vacuously_proved goal_is_valid_under_hypotheses
    goal_needs_failure_classification goals_for_property_all_valid is_generated_alarm
    property_is_assumed_valid property_is_dead property_is_disproved
    property_is_disproved_reachability property_is_inconsistent property_is_unproved_lemma
    property_normalized_status value_marker
is_proved_run = refl

abbrev no_facts : List Value
no_facts = []

check_verdict-IsEvidenced_example :
    IsComplete (some true) done done (arr []) done goals (record { eva = true; wp = true })
    × IsEvidenced input
    × (no_facts ≡ [])
unfolding find_field
check_verdict-IsEvidenced_example =
    check_verdict-IsEvidenced same input done done (arr []) no_facts refl is_proved_run

abbrev skipped : Value
skipped = obj (
    ("plugin", string "wp")
    ∷ ("kind", string "ERROR")
    ∷ ("message", string "f: skipped verification\nof its body")
    ∷ [])

wp_message_gaps-is_reported_example :
    (all
        (is_reported (wp_message_gaps (skipped ∷ skipped ∷ []) (some "Typed+Cast")))
        (skipped ∷ skipped ∷ [])
      ≡ true)
    × (any is_weakened (wp_message_gaps (skipped ∷ skipped ∷ []) (some "Typed+Cast"))
        ≡ not (is_empty (weakening_model_selectors (some "Typed+Cast"))))
wp_message_gaps-is_reported_example =
    wp_message_gaps-is_reported (skipped ∷ skipped ∷ []) (some "Typed+Cast")

selectors_of_two :
    weakening_model_selectors (some "Typed+nocast, Bytes + Nat,Hoare+real") ≡ "+nat" ∷ "+real" ∷ []
unfolding weakening_model_selectors flat_selectors split_on selectors_of trim
selectors_of_two = refl
