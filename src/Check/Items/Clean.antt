-- ===== src/Check/Items/Clean.antt =====
-- What an empty list of gaps says of the rows.
use frama_c_mcp.Prelude.{
  ◌≡◌, refl, inl, inr, Bool, true, ◌&&◌, not, Option-cases, List, [], ◌∷◌, all, arith,
}
use frama_c_mcp.Json.{Value, is_some}
use frama_c_mcp.Verdicts.{
  property_is_unproved_lemma, property_is_inconsistent, alarm_is_undischarged,
  property_is_disproved_reachability, property_is_disproved, property_is_assumed_valid,
}
use frama_c_mcp.Check.Rows.{row_finding, rows_gaps}

pub and_left : (a b : Bool) → (a && b) ≡ true → a ≡ true
and_left a b h = ground arith

pub and_right : (a b : Bool) → (a && b) ≡ true → b ≡ true
and_right a b h = ground arith

pub and_intro : (a b : Bool) → a ≡ true → b ≡ true → (a && b) ≡ true
and_intro a b h k = ground arith

pub all-imp :
    {A : Type 0} (p q : A → Bool)
    → ((x : A) → p x ≡ true → q x ≡ true)
    → (xs : List A) → all p xs ≡ true
    → all q xs ≡ true
all-imp p q imp [] h = refl
all-imp p q imp (x ∷ xs) h =
    and_intro (q x) (all q xs) (imp x (and_left (p x) (all p xs) h))
      (all-imp p q imp xs (and_right (p x) (all p xs) h))

-- a row with no finding
abbrev pub is_quiet : Value → Value → Bool
is_quiet wp_goals alarm = not (is_some (row_finding alarm wp_goals))

pub rows_gaps-is_quiet :
    (wp_goals : Value) (alarms : List Value)
    → rows_gaps wp_goals alarms ≡ []
    → all (is_quiet wp_goals) alarms ≡ true
unfolding rows_gaps
rows_gaps-is_quiet wp_goals [] h = refl
rows_gaps-is_quiet wp_goals (alarm ∷ alarms) h = elim (Option-cases (row_finding alarm wp_goals)) [
  | inl eq ↦ ground (arith, rows_gaps-is_quiet wp_goals alarms)
  | inr (finding, eq) ↦ absurd (ground arith)
]

-- A row that is not inconsistent, no alarm that EVA left open, no code that it found dead, no lemma without a
-- proof, not disproved and not assumed.
abbrev pub is_clean : Value → Value → Bool
is_clean wp_goals alarm =
    not (property_is_inconsistent alarm)
    && not (alarm_is_undischarged alarm)
    && not (property_is_disproved_reachability alarm)
    && not (property_is_unproved_lemma alarm wp_goals)
    && not (property_is_disproved alarm wp_goals)
    && not (property_is_assumed_valid alarm)

quiet_is_clean :
    (wp_goals alarm : Value) → is_quiet wp_goals alarm ≡ true → is_clean wp_goals alarm ≡ true
unfolding row_finding
quiet_is_clean wp_goals alarm quiet = ground arith

pub all_clean :
    (wp_goals : Value) (alarms : List Value)
    → all (is_quiet wp_goals) alarms ≡ true
    → all (is_clean wp_goals) alarms ≡ true
all_clean wp_goals = all-imp (is_quiet wp_goals) (is_clean wp_goals) (quiet_is_clean wp_goals)
