-- ===== src/Verdicts/Findings.antt =====
-- What the findings on a property rest on, and that two findings on its status are never both made.
use frama_c_mcp.Prelude.{
  String, Bool, true, false, ◌≡◌, ◌⊎◌, inl, inr, Bool-cases, some, List, all, is_empty, arith,
  =ˢ_iff,
}
use frama_c_mcp.Json.{Value, as_array, get_str}
use frama_c_mcp.Verdicts.{
  value_marker, goal_is_valid, property_normalized_status, property_is_unproved_lemma,
  property_is_inconsistent, property_is_assumed_valid, property_is_disproved,
  property_is_disproved_reachability, alarm_is_undischarged,
}
use frama_c_mcp.Verdicts.Coverage.{goals_of, goals_for_property_all_valid_lem}

-- A lemma that is passed over is established: either goals stand for it and all of them are valid, or
-- none does and its own status is `valid`.
pub unproved_lemma_complete :
    (property wp_goals : Value) {marker : String} {goals : List Value}
    → value_marker property ≡ some marker
    → as_array wp_goals ≡ some goals
    → get_str property "kind" ≡ some "lemma"
    → property_is_unproved_lemma property wp_goals ≡ false
    → ((is_empty (goals_of marker goals) ≡ false)
        × (all goal_is_valid (goals_of marker goals) ≡ true))
      ⊎ ((is_empty (goals_of marker goals) ≡ true)
          × (property_normalized_status property ≡ "valid"))
unfolding property_is_unproved_lemma
unproved_lemma_complete property wp_goals {marker} {goals} named listed lemma passed =
    let decided = goals_for_property_all_valid_lem property wp_goals named listed in
    elim (Bool-cases (is_empty (goals_of marker goals))) [
      | inl none-left ↦
          inr (
            none-left,
            ground (arith, decided, =ˢ_iff (property_normalized_status property) "valid"),
          )
      | inr some_left ↦ inl (some_left, ground (arith, decided))
    ]

-- The findings that are made on a row's status.
pub record Findings : Type 0 where
  pub inconsistent : Bool
  pub disproved : Bool
  pub unreachable : Bool
  pub assumed : Bool
  pub alarm : Bool

abbrev pub findings : Value → Value → Findings
findings property wp_goals = record {
  inconsistent = property_is_inconsistent property;
  disproved = property_is_disproved property wp_goals;
  unreachable = property_is_disproved_reachability property;
  assumed = property_is_assumed_valid property;
  alarm = alarm_is_undischarged property;
}

-- An inconsistent row, and one that is assumed valid, make no other finding of these; and a row whose
-- own status is `valid` makes none.
findings_exclusive :
    (property wp_goals : Value)
    → ((findings property wp_goals).inconsistent ≡ true
        → findings property wp_goals ≡ record {
          inconsistent = true;
          disproved = false;
          unreachable = false;
          assumed = false;
          alarm = false;
        })
      × ((findings property wp_goals).assumed ≡ true
          → findings property wp_goals ≡ record {
            inconsistent = false;
            disproved = false;
            unreachable = false;
            assumed = true;
            alarm = false;
          })
      × (property_normalized_status property ≡ "valid"
          → findings property wp_goals ≡ record {
            inconsistent = false;
            disproved = false;
            unreachable = false;
            assumed = false;
            alarm = false;
          })
unfolding property_is_inconsistent property_is_disproved property_is_disproved_reachability
    property_is_assumed_valid alarm_is_undischarged
findings_exclusive property wp_goals = (
  λ h. rw ((=ˢ_iff status "inconsistent").0 h) (ground arith),
  λ h. rw ((=ˢ_iff status "considered_valid").0 h) (ground arith),
  λ h. rw h (ground arith),
)
  where
    status : String
    status = property_normalized_status property
