-- ===== src/Verdicts/Filter.antt =====
-- The status filter of a goal listing.
use frama_c_mcp.Prelude.{
  String, Bool, true, false, ◌||◌, ◌≡◌, refl, ap, Option, none, some, List, [], ◌∷◌, any, ◌⊎◌, inl,
  inr, Bool-cases, eq_ignore_case, ok, err, if◌then◌else◌,
}
use frama_c_mcp.Json.{Value, get_str, is_some_and}
use frama_c_mcp.Verdicts.{
  add_present, goal_status_matches, goal_status_unproved, known_goal_statuses, present_statuses,
  reject_unknown_status,
}

-- some row has a status that the filter selects
abbrev selects : String → List Value → Bool
selects filter rows =
    any (λ row. is_some_and (get_str row "status") (λ s. goal_status_matches s filter)) rows

or_left : (a b : Bool) → a ≡ true → (a || b) ≡ true
or_left a b h = rw h

or_right : (a b : Bool) → b ≡ true → (a || b) ≡ true
or_right true b h = refl
or_right false b h = h

module _ (filter : String) (named : eq_ignore_case filter goal_status_unproved ≡ false) where
  abbrev matches : String → Bool
  matches candidate = eq_ignore_case candidate filter

  add_present-matches :
      (o : Option String) (rest : List String)
      → (is_some_and o (λ s. goal_status_matches s filter) ≡ true) ⊎ (any matches rest ≡ true)
      → any matches (add_present o rest) ≡ true
  unfolding goal_status_matches
  add_present-matches none rest (inl h) = cc
  add_present-matches none rest (inr h) = h
  add_present-matches (some s) rest (inl h) = or_left (matches s) (any matches rest) (rw named at h)
  add_present-matches (some s) rest (inr h) = or_right (matches s) (any matches rest) h

  selects-present :
      (rows : List Value) → selects filter rows ≡ true → any matches (present_statuses rows) ≡ true
  unfolding present_statuses
  selects-present [] h = cc
  selects-present (row ∷ rows) h =
      add_present-matches (get_str row "status") (present_statuses rows)
        (elim (Bool-cases
          (is_some_and (get_str row "status") (λ s. goal_status_matches s filter))) [
            | inl here ↦ inl here
            | inr not_here ↦ inr (selects-present rows (rw not_here at h))
          ])

  selected_known :
      (rows : List Value)
      → selects filter rows ≡ true
      → reject_unknown_status filter (present_statuses rows) ≡ ok tt
  unfolding reject_unknown_status
  selected_known rows h =
      ap (λ b. if b then ok tt else err filter)
        (or_right (eq_ignore_case filter goal_status_unproved || any matches known_goal_statuses)
          (any matches (present_statuses rows)) (selects-present rows h))

-- A filter that selects one of the run's rows is never refused.
selected_not_rejected :
    (filter : String) (rows : List Value)
    → selects filter rows ≡ true
    → reject_unknown_status filter (present_statuses rows) ≡ ok tt
unfolding reject_unknown_status
selected_not_rejected filter rows h =
    elim (Bool-cases (eq_ignore_case filter goal_status_unproved)) [
      | inl all_open ↦ rw all_open
      | inr named ↦ selected_known filter named rows h
    ]
