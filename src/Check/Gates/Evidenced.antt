-- ===== src/Check/Gates/Evidenced.antt =====
-- What a check with the verdict "proved" has shown.
use frama_c_mcp.Prelude.{
  ◌≡◌, refl, sym, subst, ◌⊎◌, String, ◌=ˢ◌, ◌==◌, Bool, Bool-cases, inl, inr, true, false, ◌&&◌,
  ◌||◌, not, Option, Option-cases, none, some, List, [], ◌∷◌, ◌++◌, any, all, is_empty, length,
  arith,
}
use frama_c_mcp.Json.{Value, get, as_u64, as_array, and_then, pointer, unwrap_or}
use frama_c_mcp.Check.{verdict_of}
use frama_c_mcp.Check.Items.{option_list, check_incomplete_items}
use frama_c_mcp.Check.Items.Append.{empty-append, option_list-none}
use frama_c_mcp.Check.Items.Sound.{IsComplete, check_incomplete_items-IsComplete}
use frama_c_mcp.Check.Messages.{wp_message_gaps, weakening_model_selectors}
use frama_c_mcp.Check.Messages.Weakened.{is_weakened}
use frama_c_mcp.Check.Messages.Shown.{
  is_reported, is_skipped_work, none_skipped, wp_message_gaps-is_reported,
}
use frama_c_mcp.Check.Probes.{
  smoke_test_gaps, memory_model_hypothesis_gap, memory_model_unchecked_gap,
}
use frama_c_mcp.Check.Probes.Quiet.{
  IsSmokeFree, smoke_test_gaps-IsSmokeFree, IsMemoryQuiet, says_why, memory_gaps-IsMemoryQuiet,
}
use frama_c_mcp.Check.Gates.{
  RunEvidenceInputs, is_unjudged, function_scoped, left_unjudged, anomaly_gaps, goals_changed,
  changed_gaps, truncated_gaps, asked_prop, model_of_run, withheld_by_request_gaps,
  run_evidence_gates, check_verdict,
}
use frama_c_mcp.Check.Gates.Backend.{is_abort, left_goal_unjudged-none}

-- as many goals were read back as WP counted, where both are known
abbrev counts_agree : RunEvidenceInputs → Bool
counts_agree input = elim (and_then (pointer input.wp ("measurement" ∷ "goals" ∷ [])) as_u64) [
  | none ↦ true
  | some measured ↦ elim (as_array input.wp_goals) [
    | none ↦ true
    | some goals ↦ measured == length goals
  ]
]

-- The evidence of a run: no goal failed in a run in which Why3 aborted, a run over all functions read back as
-- many goals as it counted, smoke tests that were asked for report none proved, nothing was withheld, the
-- messages were read to the end and none means skipped work, and the memory model gave up no C semantics and
-- assumed nothing that was seen, or nothing was proved.
pub record IsEvidenced (input : RunEvidenceInputs) : Type 0 where
  pub judged :
      (any is_abort input.messages && any is_unjudged (unwrap_or (as_array input.wp_goals) []))
      ≡ false
  pub unchanged : (function_scoped input.wp || counts_agree input) ≡ true
  pub smoke :
      (input.requested_smoke ≡ false)
      ⊎ (probe : Value) × (get input.wp "smoke_probe" ≡ some probe) × IsSmokeFree probe
  pub all_checks : input.rte && input.unsigned_skipped ≡ false
  pub whole : input.narrowed_by_prop ≡ none
  pub drained : input.messages_truncated ≡ false
  pub quiet : any is_skipped_work input.messages ≡ false
  pub model : is_empty (weakening_model_selectors (model_of_run input)) ≡ true
  pub hypotheses : IsMemoryQuiet input.memory_model

messages_none :
    (messages : List Value) (model : Option String)
    → wp_message_gaps messages model ≡ []
    → (any is_skipped_work messages ≡ false) × (is_empty (weakening_model_selectors model) ≡ true)
messages_none messages model h =
    let (reported, weakened) = wp_message_gaps-is_reported messages model in
    (
      none_skipped messages (subst (λ gaps. all (is_reported gaps) messages ≡ true) h reported),
      empty_of (is_empty (weakening_model_selectors model)) (
          sym (
            subst (λ gaps. any is_weakened gaps ≡ not (is_empty (weakening_model_selectors model)))
              h weakened)),
    )
  where
    empty_of : (b : Bool) → not b ≡ false → b ≡ true
    empty_of true h = refl
    empty_of false h = sym h

withheld_none :
    (unsigned_skipped rte : Bool) (prop : Option String)
    → withheld_by_request_gaps unsigned_skipped rte prop ≡ []
    → (rte && unsigned_skipped ≡ false) × (prop ≡ none)
unfolding withheld_by_request_gaps
withheld_none unsigned_skipped rte none h = (ground arith, refl)
withheld_none unsigned_skipped rte (some p) h = absurd (ground arith)

unchanged_none :
    (input : RunEvidenceInputs)
    → input.wanted.wp ≡ true
    → input.narrowed_by_prop ≡ none
    → goals_changed input ≡ none
    → (function_scoped input.wp || counts_agree input) ≡ true
unfolding goals_changed
unchanged_none input wanted whole h =
    elim (Option-cases (and_then (pointer input.wp ("measurement" ∷ "goals" ∷ [])) as_u64)) [
      | inl eq ↦ ground arith
      | inr (measured, eq) ↦ elim (Option-cases (as_array input.wp_goals)) [
        | inl eq2 ↦ ground arith
        | inr (goals, eq2) ↦ ground arith
      ]
    ]

smoke_none :
    (input : RunEvidenceInputs)
    → input.wanted.wp ≡ true
    → smoke_test_gaps (input.wanted.wp && input.requested_smoke) input.wp ≡ []
    → (input.requested_smoke ≡ false)
      ⊎ (probe : Value) × (get input.wp "smoke_probe" ≡ some probe) × IsSmokeFree probe
smoke_none input wanted h = elim (Bool-cases input.requested_smoke) [
  | inr eq ↦ inl eq
  | inl eq ↦ inr (
      smoke_test_gaps-IsSmokeFree input.wp
        (subst (λ b. smoke_test_gaps b input.wp ≡ []) (ground arith) h))
]

simple_none :
    (input : RunEvidenceInputs)
    → anomaly_gaps input ≡ []
    → changed_gaps input ≡ []
    → truncated_gaps input ≡ []
    → (left_unjudged input ≡ false)
      × (goals_changed input ≡ none)
      × (input.messages_truncated ≡ false)
simple_none input a c t = (
  elim (Bool-cases (left_unjudged input)) [ inl eq ↦ absurd (ground arith) | inr eq ↦ eq ],
  elim (Option-cases (goals_changed input)) [
    | inl eq ↦ eq
    | inr (counts, eq) ↦ absurd (ground arith)
  ],
  ground arith,
)

run_evidence_gates-IsEvidenced :
    (input : RunEvidenceInputs)
    → input.wanted.wp ≡ true
    → says_why input.memory_model ≡ true
    → run_evidence_gates input ≡ []
    → IsEvidenced input
unfolding run_evidence_gates
run_evidence_gates-IsEvidenced input wanted why h =
    let smoke = smoke_test_gaps (input.wanted.wp && input.requested_smoke) input.wp in
    let withheld = withheld_by_request_gaps input.unsigned_skipped input.rte (asked_prop input) in
    let messages = wp_message_gaps input.messages (model_of_run input) in
    let hypothesis = option_list (memory_model_hypothesis_gap input.memory_model) in
    let unchecked_model =
      option_list (memory_model_unchecked_gap input.memory_model input.wanted) in
    let first = anomaly_gaps input ++ changed_gaps input ++ smoke in
    let second = withheld ++ truncated_gaps input in
    let (h1, memory) =
      empty-append (first ++ second ++ messages) (hypothesis ++ unchecked_model) h in
    let (h2, no_messages) = empty-append (first ++ second) messages h1 in
    let (h3, h4) = empty-append first second h2 in
    let (h5, no_smoke) = empty-append (anomaly_gaps input ++ changed_gaps input) smoke h3 in
    let (no_anomaly, no_change) = empty-append (anomaly_gaps input) (changed_gaps input) h5 in
    let (not_withheld, read) = empty-append withheld (truncated_gaps input) h4 in
    let (m1, m2) = empty-append hypothesis unchecked_model memory in
    let (judged, unchanged, drained) = simple_none input no_anomaly no_change read in
    let (all_checks, whole) =
      withheld_none input.unsigned_skipped input.rte (asked_prop input) not_withheld in
    let (quiet, model) = messages_none input.messages (model_of_run input) no_messages in
    let not_narrowed : input.narrowed_by_prop ≡ none = ground arith in
    record {
      judged = left_goal_unjudged-none input.messages (model_of_run input) input.wp_goals judged;
      unchanged = unchanged_none input wanted not_narrowed unchanged;
      smoke = smoke_none input wanted no_smoke;
      all_checks = all_checks;
      whole = not_narrowed;
      drained = drained;
      quiet = quiet;
      model = model;
      hypotheses =
          memory_gaps-IsMemoryQuiet input.memory_model input.wanted wanted why
            (option_list-none (memory_model_hypothesis_gap input.memory_model) m1)
            (option_list-none (memory_model_unchecked_gap input.memory_model input.wanted) m2);
    }

verdict_proved :
    (incomplete : List Value) → (verdict_of incomplete =ˢ "proved") ≡ true → incomplete ≡ []
unfolding verdict_of
verdict_proved [] h = refl
verdict_proved (g ∷ gaps) h = absurd (ground arith)

-- When the verdict of a check is "proved", and the probe of the memory model ran or says why it did not: the
-- analyses were asked for and ran to their end with nothing open in the load, the rows, the goals and the
-- findings; no goal failed in a run in which Why3 aborted; a run over all functions read back as many goals as
-- it counted, where both are known; smoke tests that were asked for ran and report none proved; runtime-error
-- checks were not reduced and no property was filtered out; the messages were read to the end and none means
-- skipped work; the memory model gave up no C semantics, and assumed nothing that its probe saw or nothing was
-- proved; and the program adds no gap.
pub check_verdict-IsEvidenced :
    (quote : String → String) (input : RunEvidenceInputs) (reload eva eva_alarms : Value)
    (facts : List Value)
    → says_why input.memory_model ≡ true
    → (check_verdict quote input reload eva eva_alarms facts =ˢ "proved") ≡ true
    → IsComplete (some input.rte) reload eva eva_alarms input.wp input.wp_goals input.wanted
      × IsEvidenced input
      × (facts ≡ [])
unfolding check_verdict
check_verdict-IsEvidenced quote input reload eva eva_alarms facts why h =
    let items =
      check_incomplete_items quote (some input.rte) reload eva eva_alarms input.wp input.wp_goals
        input.wanted in
    let (h1, no_facts) =
      empty-append (items ++ run_evidence_gates input) facts
        (verdict_proved (items ++ run_evidence_gates input ++ facts) h) in
    let (no_items, no_gates) = empty-append items (run_evidence_gates input) h1 in
    let complete =
      check_incomplete_items-IsComplete quote (some input.rte) reload eva eva_alarms input.wp
        input.wp_goals input.wanted no_items in
    (complete, run_evidence_gates-IsEvidenced input complete.both.1 why no_gates, no_facts)
