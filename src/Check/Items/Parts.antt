-- ===== src/Check/Items/Parts.antt =====
-- What an empty list of gaps says of the front end, the findings and the steps.
use frama_c_mcp.Prelude.{
  String, ◌≡◌, refl, sym, subst, inl, inr, Bool, Bool-cases, true, false, ◌&&◌, ◌||◌, lookup,
  Option, Option-cases, none, some, List, [], ◌∷◌, any, is_empty, =ˢ_iff, arith,
}
use frama_c_mcp.Json.{
  Value, entries, at, get, get_str, as_str, as_bool, as_object, and_then, is_text, is_some,
  find_field,
}
use frama_c_mcp.Check.{
  WantedAnalyses, eva_failed, wp_failed, is_false, is_true, unrequested_analysis_gaps,
  step_failure_gaps,
}
use frama_c_mcp.Check.Load.{
  has_count, classified_gaps, unclassified, unclassified_gap, ast_soundness_reason,
  ast_diagnostic_gaps, compile_flags_dropped_gap,
}
use frama_c_mcp.Check.Proofread.{unproved_assumption_gap, finding_gap, findings_gaps}
use frama_c_mcp.Check.Items.Append.{empty-append}

abbrev is_open_category : Option String → Bool
is_open_category category =
    is_text category "result_unconstrained"
    || is_text category "unconstrained_assigns"
    || is_text category "unresolved_call"
    || is_text category "assumed_callee_contract"

-- A proof rests on a goal that was judged.
abbrev rests_on_judged : List (String × Value) → Value → Bool
rests_on_judged judged finding =
    is_text (get_str finding "category") "unproved_assumption"
    && is_some (and_then (get_str finding "wpo") (λ wpo. lookup wpo judged))

-- a finding that leaves the contract, a call or an assumption open
abbrev pub is_open_finding : List (String × Value) → Value → Bool
is_open_finding judged finding =
    is_open_category (get_str finding "category") || rests_on_judged judged finding

assumption_is_no_open_category :
    (category : Option String)
    → is_text category "unproved_assumption" ≡ true
    → is_open_category category ≡ false
assumption_is_no_open_category none h = refl
assumption_is_no_open_category (some c) h =
    subst (λ t. is_open_category (some t) ≡ false) (sym ((=ˢ_iff c "unproved_assumption").0 h)) refl

closed_assumption :
    (judged : List (String × Value)) (finding : Value)
    → unproved_assumption_gap judged finding ≡ []
    → is_some (and_then (get_str finding "wpo") (λ wpo. lookup wpo judged)) ≡ false
unfolding unproved_assumption_gap
closed_assumption judged finding h =
    elim (Option-cases (and_then (get_str finding "wpo") (λ wpo. lookup wpo judged))) [
      | inl eq ↦ rw eq
      | inr (goal, eq) ↦ absurd (ground arith)
    ]

one_closed :
    (judged : List (String × Value)) (finding : Value)
    → finding_gap judged finding ≡ []
    → is_open_finding judged finding ≡ false
unfolding finding_gap
one_closed judged finding h =
    elim (Bool-cases (is_text (get_str finding "category") "unproved_assumption")) [
      | inl eq ↦
          let other = assumption_is_no_open_category (get_str finding "category") eq in
          let rests = closed_assumption judged finding (ground arith) in ground arith
      | inr eq ↦ ground arith
    ]

pub findings_gaps-closed :
    (judged : List (String × Value)) (findings : List Value)
    → findings_gaps judged findings ≡ []
    → any (is_open_finding judged) findings ≡ false
unfolding findings_gaps
findings_gaps-closed judged [] h = refl
findings_gaps-closed judged (finding ∷ findings) h =
    let both = empty-append (finding_gap judged finding) (findings_gaps judged findings) h in
    let here = one_closed judged finding both.0 in
    let rest = findings_gaps-closed judged findings both.1 in rw here rest

-- a category of parse diagnostics that was met
abbrev was_met : String × Value → Bool
was_met (category, r) = has_count r

no_category_met :
    (categories : List (String × Value))
    → classified_gaps categories ≡ []
    → unclassified [] categories ≡ []
    → any was_met categories ≡ false
unfolding classified_gaps unclassified
no_category_met [] c u = refl
no_category_met ((category, r) ∷ categories) c u = elim (Bool-cases (has_count r)) [
  | inl met ↦ elim (Option-cases (ast_soundness_reason category)) [
    | inl eq ↦ absurd (ground arith)
    | inr (finding, eq) ↦ absurd (ground arith)
  ]
  | inr not_met ↦ ground (arith, no_category_met categories)
]

abbrev pub diagnostics : Value → Value
diagnostics reload = at (at reload "ast_reload_health") "parse_diagnostics"

-- The record of what the front end dropped is not missing, and no category that it lists has a count.
pub record IsParsed (reload : Value) : Type 0 where
  pub available : as_str (at (diagnostics reload) "unavailable") ≡ none
  pub none_met :
      any was_met (elim (as_object (at (diagnostics reload) "categories")) [
        | none ↦ []
        | some fields ↦ entries fields
      ])
      ≡ false

unclassified_gap-empty : (cs : List (String × Value)) → unclassified_gap cs ≡ [] → cs ≡ []
unfolding unclassified_gap
unclassified_gap-empty [] h = refl
unclassified_gap-empty (c ∷ cs) h = absurd (ground arith)

pub ast_diagnostic_gaps-IsParsed :
    (reload : Value) → ast_diagnostic_gaps reload [] ≡ [] → IsParsed reload
unfolding ast_diagnostic_gaps
ast_diagnostic_gaps-IsParsed reload h =
    elim (Option-cases (as_str (at (diagnostics reload) "unavailable"))) [
      | inr (reason, eq) ↦ absurd (ground arith)
      | inl eq ↦ elim (Option-cases (as_object (at (diagnostics reload) "categories"))) [
        | inl nothing ↦ record { available = eq; none_met = rw nothing }
        | inr (fields, listed) ↦
            let both =
              empty-append (classified_gaps (entries fields))
                (unclassified_gap (unclassified [] (entries fields))) (ground arith) in
            record {
              available = eq;
              none_met =
                  rw listed
                    (no_category_met (entries fields) both.0 (unclassified_gap-empty _ both.1));
            }
      ]
    ]

-- No flag of the compilation database is known to be dropped: none is listed, or the list could not be read.
abbrev pub keeps_flags : Value → Bool
keeps_flags reload = elim (and_then (get reload "compilation_database_dropped_flags") as_object) [
  | none ↦ true
  | some flags ↦ is_empty (entries flags) || is_some (find_field "unreadable" flags)
]

pub compile_flags_dropped_gap-keeps_flags :
    (reload : Value) → compile_flags_dropped_gap reload ≡ none → keeps_flags reload ≡ true
unfolding compile_flags_dropped_gap
compile_flags_dropped_gap-keeps_flags reload h =
    elim (Option-cases (and_then (get reload "compilation_database_dropped_flags") as_object)) [
      | inl eq ↦ rw (eq, keeps_flags)
      | inr (flags, eq) ↦ ground arith
    ]

pub unrequested_none :
    (rte : Option Bool) (wp : Value) (wanted : WantedAnalyses)
    → unrequested_analysis_gaps rte wp wanted ≡ []
    → (wanted.eva ≡ true) × (wanted.wp ≡ true) × (is_false rte ≡ false)
unfolding unrequested_analysis_gaps
unrequested_none rte wp wanted h = (ground arith, ground arith, ground arith)

pub steps_none :
    (quote : String → String) (reload eva eva_alarms wp wp_goals : Value) (wanted : WantedAnalyses)
    → (wanted.eva ≡ true)
    → (wanted.wp ≡ true)
    → step_failure_gaps quote reload eva eva_alarms wp wp_goals wanted ≡ []
    → (eva_failed reload eva eva_alarms ≡ false)
      × (wp_failed reload wp wp_goals ≡ false)
      × (is_true (and_then (get wp "drained") as_bool) ≡ true)
unfolding step_failure_gaps
steps_none quote reload eva eva_alarms wp wp_goals wanted e w h =
    (ground arith, ground arith, ground arith)
