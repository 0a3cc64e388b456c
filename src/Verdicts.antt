-- ===== src/Verdicts.antt =====
-- What a recorded status means for the verdict (src/mcp/verdicts.rs): the questions that the check
-- payload asks of a property row or a goal row.
pub mod Coverage
pub mod Findings
pub mod Filter
use frama_c_mcp.Prelude.{
  String, Bool, true, false, ◌&&◌, ◌||◌, not, Option, none, some, List, [], ◌∷◌, any, ◌=ˢ◌,
  contains, ends_with, eq_ignore_case, Result, ok, err, if◌then◌else◌,
}
use frama_c_mcp.Json.{
  is_text, Value, get, get_str, as_str, as_bool, as_array, and_then, or_else, unwrap_or,
  is_some_and,
}
use frama_c_mcp.Status.{own_status, own_status_is_proved, is_proved}

-- `value_marker` of src/mcp/server.rs: the first of five names that holds a text
unfoldable pub value_marker : Value → Option String
value_marker row =
    or_else
      (or_else (or_else (or_else (get_str row "key") (get_str row "property")) (get_str row "prop"))
        (get_str row "marker"))
      (get_str row "id")

unfoldable pub is_generated_alarm : Value → Bool
is_generated_alarm property =
    is_text (get_str property "kind") "assert"
    && is_some_and (and_then (or_else (get property "descr") (get property "description")) as_str)
        (λ descr. contains descr "rte:" || contains descr "Eva:")

unfoldable pub property_normalized_status : Value → String
property_normalized_status property = unwrap_or (own_status property) ""

-- The consolidated property status, or the row's own.
abbrev pub judged_status : Value → String
judged_status row =
    unwrap_or (get_str row "normalized_property_status") (property_normalized_status row)

unfoldable pub property_is_dead : Value → Bool
property_is_dead property = ends_with (judged_status property) "_but_dead"

unfoldable pub check_goal_counts_as_progress : Value → Bool
check_goal_counts_as_progress goal =
    unwrap_or (and_then (get goal "counts_as_progress") as_bool) (own_status_is_proved goal)

unfoldable pub goal_is_valid_under_hypotheses : Value → Bool
goal_is_valid_under_hypotheses goal =
    judged_status goal =ˢ "valid_under_hyp"
    || is_some_and (and_then (get goal "hypotheses") as_array)
        (any (λ hypothesis. not (check_goal_counts_as_progress hypothesis)))

-- `invalid` and `invalid_under_hyp`
abbrev is_disproved_status : String → Bool
is_disproved_status s = s =ˢ "invalid" || s =ˢ "invalid_under_hyp"

unfoldable pub alarm_is_undischarged : Value → Bool
alarm_is_undischarged alarm =
    let s = property_normalized_status alarm in
    is_generated_alarm alarm
    && not (property_is_dead alarm)
    && (is_disproved_status s || s =ˢ "unknown")

-- the property a goal names
abbrev pub goal_marker : Value → Option String
goal_marker goal = and_then (or_else (get goal "property") (get goal "property_marker")) as_str

abbrev pub goal_is_valid : Value → Bool
goal_is_valid goal = is_text (get_str goal "normalized_status") "valid"

-- the loop over the goals, with its two flags; `covered.then_some(all_valid)` at the end
goals_from : String → Bool → Bool → List Value → Option Bool
goals_from marker covered all_valid [] = if covered then some all_valid else none
goals_from marker covered all_valid (goal ∷ goals) =
    let mine = is_text (goal_marker goal) marker in
    goals_from marker (covered || mine)
      (if mine then all_valid && goal_is_valid goal else all_valid) goals

unfoldable pub goals_for_property_all_valid : Value → Value → Option Bool
unfolding goals_from
goals_for_property_all_valid property wp_goals =
    and_then (value_marker property)
      (λ marker. and_then (as_array wp_goals) (goals_from marker false true))

unfoldable pub property_is_unproved_lemma : Value → Value → Bool
property_is_unproved_lemma property wp_goals =
    is_text (get_str property "kind") "lemma"
    && (elim (goals_for_property_all_valid property wp_goals) [
      | some all_valid ↦ not all_valid
      | none ↦ not (property_normalized_status property =ˢ "valid")
    ])

abbrev is_none {ℓ} : {A : Type ℓ} → Option A → Bool
is_none none = true
is_none (some a) = false

unfoldable pub property_is_disproved : Value → Value → Bool
property_is_disproved property wp_goals =
    is_disproved_status (property_normalized_status property)
    && not (property_is_dead property)
    && is_none (goals_for_property_all_valid property wp_goals)

unfoldable pub property_is_inconsistent : Value → Bool
property_is_inconsistent property = property_normalized_status property =ˢ "inconsistent"

unfoldable pub property_is_disproved_reachability : Value → Bool
property_is_disproved_reachability property =
    is_text (get_str property "kind") "reachable"
    && is_disproved_status (property_normalized_status property)

unfoldable pub property_is_assumed_valid : Value → Bool
property_is_assumed_valid property = property_normalized_status property =ˢ "considered_valid"

unfoldable pub goal_is_vacuously_proved : Value → Bool
goal_is_vacuously_proved goal =
    unwrap_or (and_then (get goal "vacuous") as_bool) false && not (property_is_dead goal)

unfoldable pub goal_needs_failure_classification : Value → Bool
goal_needs_failure_classification goal =
    not (own_status_is_proved goal) || goal_is_vacuously_proved goal

abbrev pub goal_status_unproved : String
goal_status_unproved = "unproved"

unfoldable pub goal_status_matches : String → String → Bool
goal_status_matches goal_status filter =
    if eq_ignore_case filter goal_status_unproved
    then not (is_proved goal_status)
    else eq_ignore_case goal_status filter

abbrev pub known_goal_statuses : List String
known_goal_statuses =
    "considered_valid" ∷ "failed" ∷ "inconsistent" ∷ "invalid" ∷ "invalid_but_dead"
    ∷ "invalid_under_hyp" ∷ "never_tried" ∷ "noresult" ∷ "stepout" ∷ "timeout" ∷ "unknown"
    ∷ "unknown_but_dead" ∷ "valid" ∷ "valid_but_dead" ∷ "valid_under_false_hypothesis"
    ∷ "valid_under_hyp" ∷ []

-- The distinct texts under "status"; the order and repeats of this list are not looked at.
abbrev pub add_present : Option String → List String → List String
add_present none rest = rest
add_present (some s) rest = s ∷ rest

unfoldable pub present_statuses : List Value → List String
present_statuses [] = []
present_statuses (row ∷ rows) = add_present (get_str row "status") (present_statuses rows)

-- The error lists the statuses that would have been accepted; here it is the status alone.
unfoldable pub reject_unknown_status : String → List String → Result String (Unit {0})
reject_unknown_status status present =
    let matches = λ (candidate : String). eq_ignore_case candidate status in
    if eq_ignore_case status goal_status_unproved
      || any matches known_goal_statuses
      || any matches present
    then ok tt
    else err status
