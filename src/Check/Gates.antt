-- ===== src/Check/Gates.antt =====
-- The gates on the evidence of a run (src/mcp/analysis.rs, `run_evidence_gates` and what it calls), the
-- diagnosis of WP's backend (src/mcp/wpclass.rs), and the list of gaps that `check_payload` judges. What the
-- probe of the memory model answers, and whether the load skips the unsigned checks, are arguments.
pub mod Backend
pub mod Evidenced
use Prim.Native.String.{◌++◌ as append}
use frama_c_mcp.Prelude.{
  ℕ, suc, String, Bool, true, false, ◌&&◌, ◌||◌, not, Option, none, some, List, [], ◌∷◌, ◌++◌, any,
  length, is_empty, ltb, ◌==◌, contains, lower, decimal, if◌then◌else◌,
}
use frama_c_mcp.Json.{
  Value, null, boolean, number, string, obj, arr, at, get, get_str, as_str, as_u64, as_array,
  as_object, and_then, unwrap_or, is_some, is_some_and, pointer,
}
use frama_c_mcp.Json.Same.{same_value}
use frama_c_mcp.Status.{own_status, status_is_failed}
use frama_c_mcp.Verdicts.{goal_needs_failure_classification}
use frama_c_mcp.Check.{gap, copied, WantedAnalyses, verdict_of}
use frama_c_mcp.Check.Items.{option_list, check_incomplete_items}
use frama_c_mcp.Check.Messages.{message_field, wp_message_gaps}
use frama_c_mcp.Check.Probes.{
  smoke_test_gaps, memory_model_hypothesis_gap, memory_model_unchecked_gap,
}

unfoldable pub why3_aborted : String → Bool
why3_aborted text =
    contains text "why3"
    && (contains text "anomaly"
        || contains text "invalid_argument"
        || contains text "internal error"
        || contains text "fatal error")

abbrev anomaly_sample : ℕ
anomaly_sample = 5

-- what the loop over the messages gathers
pub record Scan : Type 0 where
  pub anomalies : List Value
  pub anomaly_count : ℕ
  pub cast_lines : List Value
  pub cast_warned : Bool

-- a line that is there and new
abbrev add_line : Option Value → List Value → List Value
add_line none lines = lines
add_line (some line) lines = if any (same_value line) lines then lines else lines ++ line ∷ []

unfoldable pub scan_message : Scan → Value → Scan
scan_message scan message =
    let text = lower (message_field message "message") in
    let aborted = why3_aborted text in
    let cast = contains text "cast with incompatible pointer" in
    record {
      anomalies =
          if aborted && ltb (length scan.anomalies) anomaly_sample
          then scan.anomalies ++ at message "message" ∷ []
          else scan.anomalies;
      anomaly_count = if aborted then suc scan.anomaly_count else scan.anomaly_count;
      cast_lines =
          if cast
          then add_line (pointer message ("source" ∷ "line" ∷ [])) scan.cast_lines
          else scan.cast_lines;
      cast_warned = scan.cast_warned || cast;
    }

unfoldable pub scan_messages : Scan → List Value → Scan
scan_messages scan [] = scan
scan_messages scan (message ∷ messages) = scan_messages (scan_message scan message) messages

abbrev pub no_scan : Scan
no_scan = record { anomalies = []; anomaly_count = 0; cast_lines = []; cast_warned = false }

-- the kind, the reason and the next call
unfoldable pub anomaly_advice : Bool → String × String × Value
anomaly_advice with_cast =
    if with_cast
    then (
      "why3_anomaly_with_pointer_cast",
      "Why3 aborted, so no prover answered these goals and their FAILED status is not a verdict on the C code or the ACSL. WP also warned about casts between incompatible pointer types at the lines below, and the model in force refuses casts. Re-run under Typed+cast before changing an annotation: an anomaly is not an unprovable goal.",
      obj (
          ("tool", string "run_wp")
          ∷ ("args", obj (("model", string "Typed+cast") ∷ ("cache", string "None") ∷ []))
          ∷ (
            "reason",
            string
                "Prove the same obligations under a model that admits the pointer casts this code performs. If they prove there, the nocast run said nothing about them. The goal list then holds both models: a goal named typed_nocast_... is the crashed run's record, not a second failure, and only the typed_cast_... rows are this verdict.",
          )
          ∷ []),
    )
    else (
      "why3_anomaly",
      "Why3 aborted, so no prover answered these goals and their FAILED status is not a verdict on the C code or the ACSL. Establish the toolchain versions before changing an annotation.",
      obj (
          ("tool", string "self_check")
          ∷ ("args", obj [])
          ∷ (
            "reason",
            string
                "Record the Frama-C, Why3, and prover versions the anomaly came from before touching the specification.",
          )
          ∷ []),
    )

unfoldable pub wp_backend_diagnosis : List Value → Option String → Value
wp_backend_diagnosis messages model =
    let scan = scan_messages no_scan messages in
    let (kind, reason, next_action) =
      anomaly_advice (is_some_and model (λ m. contains (lower m) "nocast") && scan.cast_warned) in
    if scan.anomaly_count == 0
    then null
    else obj (
        ("kind", string kind)
        ∷ ("confidence", string "high")
        ∷ ("model", elim model [ none ↦ null | some m ↦ string m ])
        ∷ ("reason", string reason)
        ∷ ("anomaly_count", number scan.anomaly_count)
        ∷ ("anomalies", arr scan.anomalies)
        ∷ ("anomalies_truncated", boolean (ltb anomaly_sample scan.anomaly_count))
        ∷ ("cast_warning_lines", arr scan.cast_lines)
        ∷ ("cast_warning_lines_are_a_sample", boolean true)
        ∷ ("next_action", next_action)
        ∷ [])

abbrev pub is_unjudged : Value → Bool
is_unjudged goal =
    goal_needs_failure_classification goal && is_some_and (own_status goal) status_is_failed

unfoldable pub wp_backend_anomaly_left_goal_unjudged : Value → Value → Bool
wp_backend_anomaly_left_goal_unjudged diagnosis goals =
    is_some (as_object diagnosis) && any is_unjudged (unwrap_or (as_array goals) [])

unfoldable pub withheld_by_request_gaps : Bool → Bool → Option String → List Value
withheld_by_request_gaps unsigned_skipped rte prop =
    (if rte && unsigned_skipped
      then gap "RTE_REDUCED"
          "RTE ran without the unsigned overflow and downcast checks, so unsigned wraparound and narrowing were not checked."
          []
        ∷ []
      else [])
    ++ (elim prop [
      | none ↦ []
      | some p ↦
          gap "CHECK_NARROWED_BY_PROP"
            "WP ran under a prop filter, so only the selected properties were attempted and this verdict does not cover the rest."
            (("prop", string p) ∷ [])
          ∷ []
    ])

pub record RunEvidenceInputs : Type 0 where
  pub wanted : WantedAnalyses
  pub requested_smoke : Bool
  pub rte : Bool
  pub narrowed_by_prop : Option String
  pub messages : List Value
  pub messages_truncated : Bool
  pub wp : Value
  pub wp_goals : Value
  pub unsigned_skipped : Bool
  pub memory_model : Value

abbrev pub model_of_run : RunEvidenceInputs → Option String
model_of_run input = and_then (pointer input.wp ("effective_wp_config" ∷ "model" ∷ [])) as_str

abbrev pub function_scoped : Value → Bool
function_scoped wp =
    is_some_and (and_then (pointer wp ("effective_wp_config" ∷ "functions" ∷ [])) as_array)
      (λ fs. not (is_empty fs))

-- the counts that a whole run of WP measured and read back, when they differ
unfoldable pub goals_changed : RunEvidenceInputs → Option (ℕ × ℕ)
goals_changed input =
    if input.wanted.wp && not (is_some input.narrowed_by_prop) && not (function_scoped input.wp)
    then elim (and_then (pointer input.wp ("measurement" ∷ "goals" ∷ [])) as_u64) [
      | none ↦ none
      | some measured ↦ elim (as_array input.wp_goals) [
        | none ↦ none
        | some goals ↦ if measured == length goals then none else some (measured, length goals)
      ]
    ]
    else none

unfoldable pub changed_gap : ℕ × ℕ → Value
changed_gap (measured, read_back) =
    gap "WP_GOALS_CHANGED_UNDER_CHECK"
      (append "The proof run produced " (
        append (decimal measured) (
          append " goals and " (
            append (decimal read_back)
              " were read back, so the goal table changed between the two."))))
      (("run_goals", number measured) ∷ ("read_back_goals", number read_back) ∷ [])

abbrev pub changed_gaps : RunEvidenceInputs → List Value
changed_gaps input = elim (goals_changed input) [
  | none ↦ []
  | some counts ↦ changed_gap counts ∷ []
]

abbrev pub left_unjudged : RunEvidenceInputs → Bool
left_unjudged input =
    wp_backend_anomaly_left_goal_unjudged (wp_backend_diagnosis input.messages (model_of_run input))
      input.wp_goals

abbrev pub anomaly_gaps : RunEvidenceInputs → List Value
anomaly_gaps input =
    let diagnosis = wp_backend_diagnosis input.messages (model_of_run input) in
    if left_unjudged input
    then obj (
        ("code", string "WP_BACKEND_ANOMALY")
        ∷ copied "reason" diagnosis
        ∷ copied "kind" diagnosis
        ∷ copied "model" diagnosis
        ∷ copied "anomaly_count" diagnosis
        ∷ [])
      ∷ []
    else []

abbrev pub truncated_gaps : RunEvidenceInputs → List Value
truncated_gaps input =
    if input.messages_truncated
    then gap "WP_MESSAGES_TRUNCATED"
        "The analyzer's message stream was not read to the end, so the gates derived from it cannot distinguish a clean run from an unread one."
        []
      ∷ []
    else []

-- the `prop` of a run that WP was asked for in
abbrev pub asked_prop : RunEvidenceInputs → Option String
asked_prop input = if input.wanted.wp then input.narrowed_by_prop else none

unfoldable pub run_evidence_gates : RunEvidenceInputs → List Value
run_evidence_gates input =
    (anomaly_gaps input
      ++ changed_gaps input
      ++ smoke_test_gaps (input.wanted.wp && input.requested_smoke) input.wp)
    ++ (withheld_by_request_gaps input.unsigned_skipped input.rte (asked_prop input)
        ++ truncated_gaps input)
    ++ wp_message_gaps input.messages (model_of_run input)
    ++ (option_list (memory_model_hypothesis_gap input.memory_model)
        ++ option_list (memory_model_unchecked_gap input.memory_model input.wanted))

-- The verdict of `check_payload`, where `facts` are the gaps of the program that it adds last.
unfoldable pub check_verdict :
    (String → String) → RunEvidenceInputs → Value → Value → Value → List Value → String
check_verdict quote input reload eva eva_alarms facts = verdict_of (
    check_incomplete_items quote (some input.rte) reload eva eva_alarms input.wp input.wp_goals
      input.wanted
    ++ run_evidence_gates input
    ++ facts)
