-- ===== src/Verdicts/Coverage.antt =====
-- When the goals of a property decide it.
use frama_c_mcp.Prelude.{
  String, Bool, true, false, ◌&&◌, ◌||◌, not, ◌≡◌, refl, ap, ◌∙◌, Bool-cases, inl, inr, Option,
  none, some, List, [], ◌∷◌, all, filter_by, is_empty, if◌then◌else◌,
}
use frama_c_mcp.Json.{is_text, Value, as_array, and_then}
use frama_c_mcp.Verdicts.{
  value_marker, goal_marker, goal_is_valid, goals_from, goals_for_property_all_valid,
}

-- the goals that stand for a property
abbrev pub goals_of : String → List Value → List Value
goals_of marker goals = filter_by (λ goal. is_text (goal_marker goal) marker) goals

-- what the two flags come to, when the goals left are none or some, and all valid or not
abbrev answer : Bool → Bool → Bool → Bool → Option Bool
answer covered all_valid some_left left_valid =
    if covered || some_left then some (all_valid && left_valid) else none

answer-mine :
    (covered all_valid valid some_left left_valid : Bool)
    → answer (covered || true) (all_valid && valid) some_left left_valid
      ≡ answer covered all_valid true (valid && left_valid)
answer-mine true true valid some_left left_valid = refl
answer-mine true false valid some_left left_valid = refl
answer-mine false true valid some_left left_valid = refl
answer-mine false false valid some_left left_valid = refl

answer-other :
    (covered all_valid some_left left_valid : Bool)
    → answer (covered || false) all_valid some_left left_valid
      ≡ answer covered all_valid some_left left_valid
answer-other true all_valid some_left left_valid = refl
answer-other false all_valid some_left left_valid = refl

module _ (marker : String) where
  abbrev left : List Value → Bool
  left goals = not (is_empty (goals_of marker goals))

  abbrev valid_left : List Value → Bool
  valid_left goals = all goal_is_valid (goals_of marker goals)

  goals_from-answer :
      (covered all_valid : Bool) (goals : List Value)
      → goals_from marker covered all_valid goals
        ≡ answer covered all_valid (left goals) (valid_left goals)
  unfolding goals_from
  goals_from-answer true true [] = refl
  goals_from-answer true false [] = refl
  goals_from-answer false all_valid [] = refl
  goals_from-answer covered all_valid (goal ∷ goals) =
      elim (Bool-cases (is_text (goal_marker goal) marker)) [
        | inl mine ↦ rw mine (
            goals_from-answer (covered || true) (all_valid && goal_is_valid goal) goals
            ∙ answer-mine covered all_valid (goal_is_valid goal) (left goals) (valid_left goals))
        | inr other ↦ rw other (
            goals_from-answer (covered || false) all_valid goals
            ∙ answer-other covered all_valid (left goals) (valid_left goals))
      ]

  none-left :
      (goals : List Value)
      → answer false true (left goals) (valid_left goals)
        ≡ (if is_empty (goals_of marker goals) then none else some (valid_left goals))
  none-left goals = go (goals_of marker goals)
    where
      go :
          (gs : List Value)
          → answer false true (not (is_empty gs)) (all goal_is_valid gs)
            ≡ (if is_empty gs then none else some (all goal_is_valid gs))
      go [] = refl
      go (g ∷ gs) = refl

-- A property with a marker is decided by its goals exactly when some goal names it, and then by all of
-- them: one that is not valid outweighs any number that are.
pub goals_for_property_all_valid_lem :
    (property wp_goals : Value) {marker : String} {goals : List Value}
    → value_marker property ≡ some marker
    → as_array wp_goals ≡ some goals
    → goals_for_property_all_valid property wp_goals ≡ (
        if is_empty (goals_of marker goals)
        then none
        else some (all goal_is_valid (goals_of marker goals)))
unfolding goals_for_property_all_valid
goals_for_property_all_valid_lem property wp_goals {marker} {goals} named listed =
    ap (λ o. and_then o (λ m. and_then (as_array wp_goals) (goals_from m false true))) named
    ∙ ap (λ o. and_then o (goals_from marker false true)) listed
    ∙ goals_from-answer marker false true goals
    ∙ none-left marker goals
