-- ===== src/Examples/Reported.antt =====
-- A project of two functions, one calling the other, both proved over the file as it is.
use frama_c_mcp.Status.{squeeze}
use frama_c_mcp.Status.{normalize_frama_c_status}
use frama_c_mcp.Status.{is_proved}
use frama_c_mcp.Status.{fold_name}
use frama_c_mcp.Receipt.{receipt_goals_record_owner}
use frama_c_mcp.Receipt.{receipt_goal_is_progress}
use frama_c_mcp.Receipt.{insert_sorted}
use frama_c_mcp.Prelude.{put}
use frama_c_mcp.Coverage.{uncovered_names}
use frama_c_mcp.Coverage.{mark_row}
use frama_c_mcp.Coverage.{contains_name}
use frama_c_mcp.Coverage.{blocking}
use frama_c_mcp.Coverage.Rows.{undefined_row}
use frama_c_mcp.Coverage.Rows.{receipts_of}
use frama_c_mcp.Coverage.Rows.{or_insert}
use frama_c_mcp.Coverage.Rows.{not_started}
use frama_c_mcp.Coverage.Rows.{entry_drift}
use frama_c_mcp.Coverage.Report.{report_of}
use frama_c_mcp.Coverage.Report.{percent}
use frama_c_mcp.Coverage.Report.{is_complete}
use frama_c_mcp.Coverage.Report.{goal_counts}
use frama_c_mcp.Coverage.Report.{count_receipts}
use frama_c_mcp.Coverage.Report.{count_one}
use frama_c_mcp.Coverage.Report.{count_goals}
use frama_c_mcp.Coverage.Report.{count_goal}
use frama_c_mcp.Coverage.Reason.{verification_status_name}
use frama_c_mcp.Coverage.Reason.{receipt_source_path}
use frama_c_mcp.Coverage.Profile.{recorded_goals}
use frama_c_mcp.Coverage.Profile.{receipt_error}
use frama_c_mcp.Coverage.Profile.{project_load_identity}
use frama_c_mcp.Coverage.Profile.{load_error}
use frama_c_mcp.Coverage.Profile.{goals_owned_by}
use frama_c_mcp.Coverage.Profile.{floor_error}
use frama_c_mcp.Coverage.Profile.{expected_load}
use frama_c_mcp.Coverage.Drift.{judge_entry}
use frama_c_mcp.Coverage.Drift.{entries_drift}
use frama_c_mcp.Coverage.Drift.{current}
use frama_c_mcp.Coverage.Rows.{entry_row}
use frama_c_mcp.Prelude.{lookup}
use frama_c_mcp.Coverage.Rows.{target_row}
use frama_c_mcp.Coverage.{is_newly}
use frama_c_mcp.Receipt.{sort_texts}
use frama_c_mcp.Coverage.Rows.{dedup}
use frama_c_mcp.Coverage.Rows.{sorted_names}
use frama_c_mcp.Coverage.Rows.{target_rows}
use frama_c_mcp.Coverage.{newly_names}
use frama_c_mcp.Coverage.{propagate_rounds}
use frama_c_mcp.Coverage.{propagate_unverified_callees}
use frama_c_mcp.Coverage.Profile.{receipt_names_function}
use frama_c_mcp.Coverage.Reason.{receipt_reason}
use frama_c_mcp.Json.Same.{same_value}
use frama_c_mcp.Coverage.Reason.{receipt_matches_project}
use frama_c_mcp.Coverage.Reason.{profile_reason}
use frama_c_mcp.Prelude.{
  ℕ, String, ◌≡◌, refl, true, Option, none, some, List, [], ◌∷◌, ◌=ˢ◌, if◌then◌else◌,
}
use frama_c_mcp.Json.{Value, null, boolean, string, obj, arr, at, find_field, unwrap_or}
use frama_c_mcp.Session.Data.{verified, FunctionVerificationState, empty_conclusion_static}
use frama_c_mcp.Coverage.Drift.{Files, no_drift, receipt_files, receipt_source_drift}
use frama_c_mcp.Coverage.Drift.Direct.{
  drift_read, IsFaithful, IsFaithful-empty, receipt_source_drift_lem,
}
use frama_c_mcp.Coverage.Profile.{profile_evidence_error}
use frama_c_mcp.Coverage.Reason.{LoadedProject, row_reason}
use frama_c_mcp.Coverage.Reason.Current.{IsCurrentProof, row_reason-IsCurrentProof}
use frama_c_mcp.Coverage.Rows.{Setting}
use frama_c_mcp.Coverage.Report.{proof_coverage_report}
use frama_c_mcp.Coverage.Report.Established.{IsEstablished}
use frama_c_mcp.Coverage.Report.Complete.{proof_coverage_report-IsEstablished}

abbrev files : Files
files = record {
  is_bare = λ path. path =ˢ "a.c";
  parent_name = λ path. none;
  file_name = λ path. none;
  digest = λ path. if path =ˢ "/p/a.c" then some "h" else none;
}

abbrev load : Value
load = obj (("rte", boolean true) ∷ [])

abbrev receipt : Value
receipt = obj (
    (
      "subject",
      obj (
          ("files", arr (obj (("path", string "/p/a.c") ∷ ("sha256", string "h") ∷ []) ∷ []))
          ∷ ("project_load", load)
          ∷ []),
    )
    ∷ ("wp", obj (("functions", arr (string "f" ∷ string "g" ∷ [])) ∷ []))
    ∷ ("goals", arr (obj (("status", string "valid") ∷ ("fct", string "f") ∷ []) ∷ []))
    ∷ ("sha256", string "d")
    ∷ [])

abbrev proved : String → List String → FunctionVerificationState
proved function callees = record (empty_conclusion_static function) {
  status = verified;
  callees = callees;
  proof_receipt = some receipt;
}

abbrev loaded : Option LoadedProject
loaded = some (record { files = "/p/a.c" ∷ []; load = load })

abbrev project : Setting
project = record { host = files; digest = "models"; loaded = loaded; verify_profile = none }

abbrev conclusions : List (String × FunctionVerificationState)
conclusions = ("f", proved "f" ("g" ∷ [])) ∷ ("g", proved "g" []) ∷ []

abbrev zero_quotient : ℕ → ℕ → Value
zero_quotient a b = null

receipt_source_drift_lem_example :
    ((receipt_source_drift files [] receipt).0 ≡ drift_read files (receipt_files receipt))
    × IsFaithful files (receipt_source_drift files [] receipt).1
receipt_source_drift_lem_example =
    receipt_source_drift_lem files [] receipt (IsFaithful-empty files)

is_current : row_reason files "models" (proved "f" ("g" ∷ [])) none no_drift loaded ≡ none
unfolding row_reason profile_reason receipt_matches_project find_field same_value receipt_reason
    receipt_names_function
is_current = refl

row_reason-IsCurrentProof_example :
    IsCurrentProof files "models" (proved "f" ("g" ∷ [])) none no_drift loaded
row_reason-IsCurrentProof_example =
    row_reason-IsCurrentProof files "models" (proved "f" ("g" ∷ [])) none no_drift loaded is_current

abbrev the_report : Value
unfolding proof_coverage_report
the_report =
    unwrap_or
      (proof_coverage_report zero_quotient project true ("g" ∷ "f" ∷ []) [] ("f" ∷ "g" ∷ [])
        conclusions)
      null

made :
    proof_coverage_report zero_quotient project true
      ("g" ∷ "f" ∷ [])
      []
      ("f" ∷ "g" ∷ [])
      conclusions
    ≡ some the_report
unfolding proof_coverage_report propagate_unverified_callees propagate_rounds newly_names
    target_rows sorted_names dedup sort_texts is_newly target_row lookup entry_row row_reason
    profile_reason receipt_matches_project find_field same_value receipt_reason current
    entries_drift judge_entry receipt_source_drift expected_load floor_error goals_owned_by
    load_error profile_evidence_error project_load_identity receipt_error receipt_names_function
    recorded_goals receipt_source_path verification_status_name count_goal count_goals count_one
    count_receipts goal_counts is_complete percent report_of entry_drift not_started or_insert
    receipts_of undefined_row blocking contains_name mark_row uncovered_names put insert_sorted
    receipt_goal_is_progress receipt_goals_record_owner fold_name is_proved normalize_frama_c_status
    squeeze
made = refl

complete : at the_report "verdict" ≡ string "complete"
unfolding the_report propagate_unverified_callees propagate_rounds newly_names target_rows
    sorted_names dedup sort_texts is_newly target_row lookup entry_row row_reason profile_reason
    receipt_matches_project find_field same_value receipt_reason current entries_drift judge_entry
    receipt_source_drift expected_load floor_error goals_owned_by load_error profile_evidence_error
    project_load_identity receipt_error receipt_names_function recorded_goals receipt_source_path
    verification_status_name count_goal count_goals count_one count_receipts goal_counts is_complete
    percent proof_coverage_report report_of entry_drift not_started or_insert receipts_of
    undefined_row blocking contains_name mark_row uncovered_names put insert_sorted
    receipt_goal_is_progress receipt_goals_record_owner fold_name is_proved normalize_frama_c_status
    squeeze
complete = refl

proof_coverage_report-IsEstablished_example : IsEstablished project ("f" ∷ "g" ∷ []) conclusions "f"
proof_coverage_report-IsEstablished_example =
    proof_coverage_report-IsEstablished zero_quotient project true ("g" ∷ "f" ∷ []) []
      ("f" ∷ "g" ∷ []) conclusions "f" the_report made complete refl
