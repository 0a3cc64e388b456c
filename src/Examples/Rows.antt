-- ===== src/Examples/Rows.antt =====
-- Statuses, rows of the property table and goals.
use frama_c_mcp.Prelude.{
  true, false, ◌≡◌, ◌⊎◌, refl, List, [], ◌∷◌, is_empty, all, some, none, if◌then◌else◌,
}
use frama_c_mcp.Json.{
  find_field, get, boolean, as_array, unwrap_or, Value, string, object, Fields, obj, arr,
  of_entries,
}
use frama_c_mcp.Status.{normalize_frama_c_status, add_status_fields, own_status_is_proved}
use frama_c_mcp.Status.Rows.{own_status_is_proved-eq}
use frama_c_mcp.Status.Normal.{normalize_frama_c_status_idem}
use frama_c_mcp.Verdicts.{
  value_marker, goal_is_valid, goals_for_property_all_valid, property_normalized_status,
  property_is_unproved_lemma,
}
use frama_c_mcp.Verdicts.Coverage.{goals_of, goals_for_property_all_valid_lem}
use frama_c_mcp.Verdicts.Findings.{unproved_lemma_complete}

normalize_frama_c_status_idem_example :
    normalize_frama_c_status (normalize_frama_c_status "Valid under Hypothesis")
    ≡ normalize_frama_c_status "Valid under Hypothesis"
normalize_frama_c_status_idem_example = normalize_frama_c_status_idem "Valid under Hypothesis"

-- a row that carries an older enrichment
abbrev row : Fields
row = of_entries (("status", string "Valid") ∷ ("normalized_status", string "stale") ∷ [])

own_status_is_proved-eq_example :
    get (add_status_fields (object row)) "counts_as_progress"
    ≡ some (boolean (own_status_is_proved (add_status_fields (object row))))
unfolding find_field
own_status_is_proved-eq_example = own_status_is_proved-eq row "Valid" refl

abbrev lemma_row : Value
lemma_row = obj (("key", string "#p1") ∷ ("kind", string "lemma") ∷ ("status", string "valid") ∷ [])

abbrev goals : Value
goals = arr (
    obj (
      ("property", string "#p1")
      ∷ ("status", string "VALID")
      ∷ ("normalized_status", string "valid")
      ∷ [])
    ∷ obj (("property", string "#p2") ∷ ("status", string "UNKNOWN") ∷ [])
    ∷ [])

-- the rows of the list
abbrev as_list : Value → List Value
as_list v = unwrap_or (as_array v) []

goals_for_property_all_valid_lem_example : goals_for_property_all_valid lemma_row goals ≡ (
    if is_empty (goals_of "#p1" (as_list goals))
    then none
    else some (all goal_is_valid (goals_of "#p1" (as_list goals))))
unfolding value_marker find_field
goals_for_property_all_valid_lem_example =
    goals_for_property_all_valid_lem lemma_row goals refl refl

unproved_lemma_complete_example :
    ((is_empty (goals_of "#p1" (as_list goals)) ≡ false)
      × (all goal_is_valid (goals_of "#p1" (as_list goals)) ≡ true))
    ⊎ ((is_empty (goals_of "#p1" (as_list goals)) ≡ true)
        × (property_normalized_status lemma_row ≡ "valid"))
unfolding value_marker find_field property_is_unproved_lemma goals_for_property_all_valid
unproved_lemma_complete_example = unproved_lemma_complete lemma_row goals refl refl refl refl
