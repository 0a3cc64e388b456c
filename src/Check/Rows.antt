-- ===== src/Check/Rows.antt =====
-- Gaps of property rows and of goals (src/mcp/checkgaps.rs, `property_row_gaps`, `proved_goal_gap` and
-- `wp_goal_gaps`).
use frama_c_mcp.Prelude.{
  String, Bool, ◌&&◌, not, Option, none, some, List, [], ◌∷◌, ◌++◌, any, ◌=ˢ◌, eq_ignore_case, put,
  if◌then◌else◌,
}
use frama_c_mcp.Json.{
  Value, null, string, at, get, get_str, as_str, as_array, and_then, or_else, unwrap_or,
  is_some_and, is_text,
}
use frama_c_mcp.Status.{own_status, is_proved, status_is_vacuous}
use frama_c_mcp.Verdicts.{
  value_marker, property_normalized_status, property_is_dead, goal_is_valid_under_hypotheses,
  alarm_is_undischarged, property_is_unproved_lemma, property_is_disproved,
  property_is_inconsistent, property_is_disproved_reachability, property_is_assumed_valid,
  check_goal_counts_as_progress, goal_marker, judged_status,
}
use frama_c_mcp.Check.{gap, copied}

-- the code and the reason of a row's gap, the first that applies
unfoldable pub row_finding : Value → Value → Option (String × String)
row_finding alarm wp_goals =
    if property_is_inconsistent alarm
    then some (
      "PROPERTY_INCONSISTENT",
      "Frama-C consolidated contradictory statuses for this property, so the verdict cannot be trusted in either direction.",
    )
    else if alarm_is_undischarged alarm
    then some ("ALARM_NOT_VALID", "EVA reported a runtime-error alarm it could not discharge.")
    else if property_is_disproved_reachability alarm
    then some (
      "PROPERTY_DEAD",
      "EVA proved this code unreachable, so nothing proved about it constrains a run.",
    )
    else if property_is_unproved_lemma alarm wp_goals
    then some (
      "LEMMA_NOT_PROVED",
      "WP assumes every lemma while discharging other goals, so an undischarged one makes the proofs around it worthless.",
    )
    else if property_is_disproved alarm wp_goals
    then some (
      "PROPERTY_DISPROVED",
      "Frama-C disproved this property, and WP emits no goal for a property that already carries a status, so nothing downstream reports it.",
    )
    else if property_is_assumed_valid alarm
    then some (
      "ASSUMED_VALID",
      "Frama-C recorded this property as valid by external assumption rather than by proof. WP uses it as a hypothesis everywhere without ever checking it.",
    )
    else none

row_gap : Value → String × String → Value
row_gap alarm (code, reason) = gap code reason (
    ("property", elim (value_marker alarm) [ none ↦ null | some m ↦ string m ])
    ∷ copied "descr" alarm
    ∷ copied "source_location" alarm
    ∷ ("status", string (property_normalized_status alarm))
    ∷ [])

-- the loop over the rows
unfoldable pub rows_gaps : Value → List Value → List Value
unfolding row_gap
rows_gaps wp_goals [] = []
rows_gaps wp_goals (alarm ∷ alarms) =
    let rest = rows_gaps wp_goals alarms in
    elim (row_finding alarm wp_goals) [ none ↦ rest | some finding ↦ row_gap alarm finding ∷ rest ]

unfoldable pub property_row_gaps : Value → Value → List Value
property_row_gaps eva_alarms wp_goals = rows_gaps wp_goals (unwrap_or (as_array eva_alarms) [])

abbrev goal_fields : Value → String → List (String × Value) → List (String × Value)
goal_fields goal status rest =
    copied "stable_goal_id" goal
    ∷ copied "frama_c_goal_name" goal
    ∷ copied "goal_kind" goal
    ∷ ("normalized_status", string status)
    ∷ rest

-- A proved goal whose property is dead, vacuous or valid under hypotheses.
unfoldable pub proved_goal_gap : Value → String → Option Value
proved_goal_gap goal status =
    let property_status : String × Value =
      ("property_status", at goal "normalized_property_status") in
    if property_is_dead goal
    then some (
        gap "PROPERTY_DEAD"
          "WP proved this goal, but its property sits in code EVA proved unreachable."
          (goal_fields goal status (property_status ∷ [])))
    else if status_is_vacuous (judged_status goal)
    then some (
        gap "PROPERTY_VACUOUS"
          "WP proved this goal, but Frama-C discharged its property only under a hypothesis that cannot hold, so the proof holds over no execution."
          (goal_fields goal status (
            property_status
            ∷ copied "vacuity_reason" goal
            ∷ copied "vacuity_dependency" goal
            ∷ [])))
    else if goal_is_valid_under_hypotheses goal
    then some (
        gap "VALID_UNDER_HYP"
          "WP proved this goal, but Frama-C consolidated its property as valid only under hypotheses that are not themselves established."
          (goal_fields goal status (property_status ∷ copied "hypotheses" goal ∷ [])))
    else none

-- the names of the rows that state lemmas
unfoldable pub lemma_markers : List Value → List String
lemma_markers [] = []
lemma_markers (alarm ∷ alarms) =
    let rest = lemma_markers alarms in
    if is_text (get_str alarm "kind") "lemma"
    then (elim (value_marker alarm) [ none ↦ rest | some m ↦ m ∷ rest ])
    else rest

abbrev pub names_lemma : List String → Value → Bool
names_lemma markers goal = is_some_and (goal_marker goal) (λ m. any (λ n. n =ˢ m) markers)

-- A goal that no test of the loop passes over.
abbrev pub is_judged : List String → Value → Bool
is_judged markers goal = not (check_goal_counts_as_progress goal) && not (names_lemma markers goal)

-- the gaps of one judged goal
unfoldable pub judged_goal_gaps : Value → List Value
judged_goal_gaps goal =
    let status = unwrap_or (own_status goal) "unknown" in
    if is_proved status
    then (elim (proved_goal_gap goal status) [ none ↦ [] | some g ↦ g ∷ [] ])
    else gap "GOAL_NOT_VALID" "WP has a non-valid goal." (goal_fields goal status [])
      ∷ (if eq_ignore_case status "timeout"
          then gap "PROVER_TIMEOUT" "A WP prover timed out on this goal."
              (goal_fields goal status [])
            ∷ []
          else [])

unfoldable pub goals_gaps : List String → List Value → List Value
goals_gaps markers [] = []
goals_gaps markers (goal ∷ goals) =
    let rest = goals_gaps markers goals in
    if is_judged markers goal then judged_goal_gaps goal ++ rest else rest

-- the map from the names of judged goals to the goals; a later goal of a name replaces the earlier
judge : List (String × Value) → List String → List Value → List (String × Value)
judge judged markers [] = judged
judge judged markers (goal ∷ goals) =
    judge
      (if is_judged markers goal
        then (elim (and_then (or_else (get goal "wpo_id") (get goal "wpo")) as_str) [
          | none ↦ judged
          | some wpo ↦ put wpo goal judged
        ])
        else judged)
      markers goals

unfoldable pub wp_goal_gaps : Value → Value → List Value × List (String × Value)
unfolding goals_gaps judge lemma_markers
wp_goal_gaps eva_alarms wp_goals =
    let markers = lemma_markers (unwrap_or (as_array eva_alarms) []) in
    let goals = unwrap_or (as_array wp_goals) [] in
    (goals_gaps markers goals, judge [] markers goals)
