-- ===== src/Check/Items/Goals.antt =====
-- What an empty list of gaps says of the goals.
use frama_c_mcp.Prelude.{
  String, ◌≡◌, refl, sym, ◌∙◌, ap, if◌then◌else◌, inl, inr, Bool, Bool-cases, true, false, ◌&&◌,
  ◌||◌, not, Option-cases, some, List, [], ◌∷◌, any, all, filter_by, is_empty, ◌=ˢ◌, =ˢ_iff,
  =ˢ_refl, arith,
}
use frama_c_mcp.Json.{Value, get_str, as_array, unwrap_or, is_some_and, is_text}
use frama_c_mcp.Status.{own_status, own_status_is_proved, is_proved, status_is_vacuous}
use frama_c_mcp.Verdicts.{
  value_marker, goal_marker, goal_is_valid, check_goal_counts_as_progress,
  property_is_unproved_lemma, property_is_dead, goal_is_valid_under_hypotheses, judged_status,
}
use frama_c_mcp.Verdicts.Findings.{unproved_lemma_complete}
use frama_c_mcp.Check.Rows.{
  row_finding, proved_goal_gap, lemma_markers, names_lemma, is_judged, judged_goal_gaps, goals_gaps,
  wp_goal_gaps,
}
use frama_c_mcp.Check.Items.Append.{empty-append}
use frama_c_mcp.Check.Items.Clean.{and_left, and_right, and_intro, all-imp, is_quiet}

quiet_lemma :
    (wp_goals alarm : Value)
    → is_quiet wp_goals alarm ≡ true
    → property_is_unproved_lemma alarm wp_goals ≡ false
unfolding row_finding
quiet_lemma wp_goals alarm quiet = ground arith

is_lemma_kind :
    (alarm : Value)
    → is_text (get_str alarm "kind") "lemma" ≡ true
    → get_str alarm "kind" ≡ some "lemma"
is_lemma_kind alarm h = elim (Option-cases (get_str alarm "kind")) [
  | inl eq ↦ absurd (ground arith)
  | inr (kind, eq) ↦ ground (arith, =ˢ_iff kind "lemma")
]

-- a marker among those of the lemmas is that of a lemma's row, which is not reported
lemma_row :
    (wp_goals : Value) (m : String) (alarms : List Value)
    → all (is_quiet wp_goals) alarms ≡ true
    → any (λ n. n =ˢ m) (lemma_markers alarms) ≡ true
    → (alarm : Value) × (value_marker alarm ≡ some m)
      × (get_str alarm "kind" ≡ some "lemma")
      × (property_is_unproved_lemma alarm wp_goals ≡ false)
unfolding lemma_markers
lemma_row wp_goals m [] quiet there = absurd (ground arith)
lemma_row wp_goals m (alarm ∷ alarms) quiet there =
    let here_quiet : is_quiet wp_goals alarm ≡ true = ground arith in
    let rest_quiet : all (is_quiet wp_goals) alarms ≡ true = ground arith in
    elim (Bool-cases (is_text (get_str alarm "kind") "lemma")) [
      | inr other ↦ lemma_row wp_goals m alarms rest_quiet (ground arith)
      | inl lemma ↦ elim (Option-cases (value_marker alarm)) [
        | inl unnamed ↦ lemma_row wp_goals m alarms rest_quiet (ground arith)
        | inr (n, named) ↦ elim (Bool-cases (n =ˢ m)) [
          | inl same ↦ (
            alarm,
            ground (arith, =ˢ_iff n m),
            is_lemma_kind alarm lemma,
            quiet_lemma wp_goals alarm here_quiet,
          )
          | inr differ ↦ lemma_row wp_goals m alarms rest_quiet (ground arith)
        ]
      ]
    ]

module _ {A : Type 0} (p q : A → Bool) where
  all-filter_by :
      (xs : List A) → all q (filter_by p xs) ≡ true → all (λ x. not (p x) || q x) xs ≡ true
  all-filter_by [] h = refl
  all-filter_by (x ∷ xs) h = ground (arith, all-filter_by xs)

  is_empty-filter_by :
      (xs : List A) → is_empty (filter_by p xs) ≡ true → all (λ x. not (p x) || q x) xs ≡ true
  is_empty-filter_by [] h = refl
  is_empty-filter_by (x ∷ xs) h = ground (arith, is_empty-filter_by xs)

-- a goal that is not of this property, or is valid
abbrev valid_for : String → Value → Bool
valid_for m goal = not (is_text (goal_marker goal) m) || goal_is_valid goal

lemma_goals_valid :
    (wp_goals : Value) (m : String) (alarms goals : List Value)
    → all (is_quiet wp_goals) alarms ≡ true
    → as_array wp_goals ≡ some goals
    → any (λ n. n =ˢ m) (lemma_markers alarms) ≡ true
    → all (valid_for m) goals ≡ true
lemma_goals_valid wp_goals m alarms goals quiet listed there =
    let (alarm, named, lemma, passed) = lemma_row wp_goals m alarms quiet there in
    elim (unproved_lemma_complete alarm wp_goals named listed lemma passed) [
      | inl (some_left, valid) ↦
          all-filter_by (λ goal. is_text (goal_marker goal) m) goal_is_valid goals valid
      | inr (nothing, status) ↦
          is_empty-filter_by (λ goal. is_text (goal_marker goal) m) goal_is_valid goals nothing
    ]

-- A goal that WP proved, whose property is not dead, not vacuous and not under hypotheses.
abbrev is_unconditional : Value → Bool
is_unconditional goal =
    own_status_is_proved goal
    && not (property_is_dead goal)
    && not (status_is_vacuous (judged_status goal))
    && not (goal_is_valid_under_hypotheses goal)

-- A goal of a lemma is valid; any other counts as progress or was proved without conditions.
abbrev is_established_by : List String → Value → Bool
is_established_by markers goal =
    if names_lemma markers goal
    then goal_is_valid goal
    else check_goal_counts_as_progress goal || is_unconditional goal

abbrev is_lemma_row : String → Value → Bool
is_lemma_row m row = is_text (get_str row "kind") "lemma" && is_text (value_marker row) m

-- The goal stands for a lemma that has a row.
abbrev is_lemma_goal : List Value → Value → Bool
is_lemma_goal rows goal = is_some_and (goal_marker goal) (λ m. any (is_lemma_row m) rows)

abbrev pub is_established : List Value → Value → Bool
is_established rows goal =
    if is_lemma_goal rows goal
    then goal_is_valid goal
    else check_goal_counts_as_progress goal || is_unconditional goal

lemma_markers-any :
    (m : String) (rows : List Value)
    → any (λ n. n =ˢ m) (lemma_markers rows) ≡ any (is_lemma_row m) rows
unfolding lemma_markers
lemma_markers-any m [] = refl
lemma_markers-any m (row ∷ rows) = elim (Bool-cases (is_text (get_str row "kind") "lemma")) [
  | inr other ↦ rw (other, lemma_markers) (lemma_markers-any m rows)
  | inl lemma ↦ elim (Option-cases (value_marker row)) [
    | inl unnamed ↦ rw (lemma, unnamed, lemma_markers) (lemma_markers-any m rows)
    | inr (n, named) ↦
        rw (lemma, named, lemma_markers) (ap (λ b. n =ˢ m || b) (lemma_markers-any m rows))
  ]
]

named_by_rows :
    (rows : List Value) (goal : Value)
    → is_established_by (lemma_markers rows) goal ≡ is_established rows goal
named_by_rows rows goal = elim (Option-cases (goal_marker goal)) [
  | inl unnamed ↦ rw unnamed
  | inr (m, named) ↦ rw (named, lemma_markers-any m rows)
]

all_named_by_rows :
    (rows goals : List Value)
    → all (is_established_by (lemma_markers rows)) goals ≡ true
    → all (is_established rows) goals ≡ true
all_named_by_rows rows goals =
    all-imp (is_established_by (lemma_markers rows)) (is_established rows)
      (λ goal h. sym (named_by_rows rows goal) ∙ h) goals

unknown_is_open : is_proved "unknown" ≡ false
unfolding is_proved
unknown_is_open = refl

judged_established : (goal : Value) → judged_goal_gaps goal ≡ [] → is_unconditional goal ≡ true
unfolding judged_goal_gaps proved_goal_gap own_status_is_proved
judged_established goal h = elim (Option-cases (own_status goal)) [
  | inl eq ↦ absurd (ground (arith, unknown_is_open))
  | inr (status, eq) ↦ ground arith
]

named_valid :
    (m : String) (goal : Value)
    → goal_marker goal ≡ some m
    → valid_for m goal ≡ true
    → goal_is_valid goal ≡ true
named_valid m goal named h = ground (arith, =ˢ_refl m)

judged_split :
    (markers : List String) (goal : Value) (goals : List Value)
    → goals_gaps markers (goal ∷ goals) ≡ []
    → (is_judged markers goal ≡ true → judged_goal_gaps goal ≡ []) × (goals_gaps markers goals ≡ [])
unfolding goals_gaps
judged_split markers goal goals h = elim (Bool-cases (is_judged markers goal)) [
  | inl judged ↦
      let both = empty-append (judged_goal_gaps goal) (goals_gaps markers goals) (rw judged at h) in
      ((λ _. both.0), both.1)
  | inr passed ↦ ((λ j. absurd (ground arith)), rw passed at h)
]

one_established :
    (markers : List String) (goal : Value)
    → ((m : String) → any (λ n. n =ˢ m) markers ≡ true → valid_for m goal ≡ true)
    → (is_judged markers goal ≡ true → judged_goal_gaps goal ≡ [])
    → is_established_by markers goal ≡ true
one_established markers goal lemmas clean = elim (Bool-cases (names_lemma markers goal)) [
  | inl lemma ↦ elim (Option-cases (goal_marker goal)) [
    | inl unnamed ↦ absurd (ground arith)
    | inr (m, named) ↦
        let valid = named_valid m goal named (lemmas m (ground arith)) in ground arith
  ]
  | inr ordinary ↦ elim (Bool-cases (check_goal_counts_as_progress goal)) [
    | inl progress ↦ ground arith
    | inr unfinished ↦
        let unconditional = judged_established goal (clean (ground arith)) in
        rw (ordinary, unfinished, unconditional)
  ]
]

-- The goals of a part of the list, when those of each lemma are valid.
goals_gaps-is_established :
    (markers : List String) (goals : List Value)
    → ((m : String) → any (λ n. n =ˢ m) markers ≡ true → all (valid_for m) goals ≡ true)
    → goals_gaps markers goals ≡ []
    → all (is_established_by markers) goals ≡ true
unfolding goals_gaps
goals_gaps-is_established markers [] lemmas h = refl
goals_gaps-is_established markers (goal ∷ goals) lemmas h =
    let split = judged_split markers goal goals h in
    let here =
      one_established markers goal
        (λ m there. and_left (valid_for m goal) (all (valid_for m) goals) (lemmas m there))
        split.0 in
    let rest =
      goals_gaps-is_established markers goals
        (λ m there. and_right (valid_for m goal) (all (valid_for m) goals) (lemmas m there))
        split.1 in
    and_intro (is_established_by markers goal) (all (is_established_by markers) goals) here rest

pub goals_established :
    (eva_alarms wp_goals : Value)
    → all (is_quiet wp_goals) (unwrap_or (as_array eva_alarms) []) ≡ true
    → (wp_goal_gaps eva_alarms wp_goals).0 ≡ []
    → all (is_established (unwrap_or (as_array eva_alarms) [])) (unwrap_or (as_array wp_goals) [])
      ≡ true
unfolding wp_goal_gaps
goals_established eva_alarms wp_goals quiet h = elim (Option-cases (as_array wp_goals)) [
  | inl eq ↦ rw eq
  | inr (goals, eq) ↦ rw eq (
      all_named_by_rows (unwrap_or (as_array eva_alarms) []) goals (
        goals_gaps-is_established (lemma_markers (unwrap_or (as_array eva_alarms) [])) goals
          (λ m there.
            lemma_goals_valid wp_goals m (unwrap_or (as_array eva_alarms) []) goals quiet eq there)
          (rw eq at h)))
]
