-- ===== src/Check/Probes/Quiet.antt =====
-- What probes with no gap have shown.
use frama_c_mcp.Prelude.{
  String, ◌||◌, ◌≡◌, refl, ◌≤◌, ◌⊎◌, inl, inr, Bool, Bool-cases, true, false, not, Option,
  Option-cases, none, some, List, [], ◌∷◌, any, filter_by, is_empty, ℕ, ==_iff, if◌then◌else◌,
  arith,
}
use frama_c_mcp.Json.{
  find_field, Value, at, get, get_str, as_bool, as_u64, as_array, and_then, unwrap_or, is_null,
  is_some,
}
use frama_c_mcp.Check.{is_true, WantedAnalyses}
use frama_c_mcp.Check.Probes.{
  has_run, ran_probe, summary_failed, summary_gaps, smoke_test_gaps, is_decorative, probed_mutants,
  contract_mutant_gaps, names_function, hypothesis_entries, parsed_hypothesis_entries,
  unparsed_hypothesis_warnings, has_parsed_hypothesis_entry, memory_model_hypothesis_gap,
  memory_model_unchecked_gap, nothing_was_proved, probe_absent,
}

module _ {A : Type 0} (p : A → Bool) where
  is_empty-none : (xs : List A) → is_empty (filter_by p xs) ≡ not (any p xs)
  is_empty-none [] = refl
  is_empty-none (x ∷ xs) = ground (arith, is_empty-none xs)

-- The count of those that passed is not given, or is that of all.
abbrev PassedAll : Option ℕ → ℕ → Type 0
PassedAll passed total = (passed ≡ none) ⊎ (q : ℕ) × (passed ≡ some q) × (total ≤ q)

-- A probe of the smoke tests that ran, gave their number, and reports none as proved.
pub record IsSmokeFree (probe : Value) : Type 0 where
  pub total : ℕ
  pub ran : has_run probe ≡ true
  pub counted : and_then (get probe "total") as_u64 ≡ some total
  pub none_listed : is_empty (unwrap_or (and_then (get probe "failed") as_array) []) ≡ true
  pub passed_all : PassedAll (and_then (get probe "passed") as_u64) total

summary_gaps-empty :
    (probe : Value) (failed : List Value) (passed total : Option ℕ)
    → summary_gaps probe failed passed total ≡ []
    → (n : ℕ) × (total ≡ some n) × (is_empty failed ≡ true) × (summary_failed passed total ≡ 0)
unfolding summary_gaps
summary_gaps-empty probe failed passed none h = absurd (ground arith)
summary_gaps-empty probe failed passed (some n) h = (n, refl, ground arith, ground arith)

some_passed :
    (passed total : Option ℕ) (n : ℕ)
    → total ≡ some n
    → summary_failed passed total ≡ 0
    → PassedAll passed n
some_passed none total n k f = inl refl
some_passed (some q) none n k f = absurd (ground arith)
some_passed (some q) (some m) n k f = inr (q, refl, ground arith)

ran_is_probe :
    (o : Option Value) (probe : Value)
    → ran_probe o ≡ some probe
    → (o ≡ some probe) × (has_run probe ≡ true)
ran_is_probe none probe h = absurd (ground arith)
ran_is_probe (some q) probe h = elim (Bool-cases (has_run q)) [
  | inl eq ↦ ground arith
  | inr eq ↦ absurd (ground arith)
]

-- When smoke tests were asked for and leave no gap, the probe is there, it ran and gave their number, it
-- lists none as failed, and where it says how many passed, that is no fewer than there are.
pub smoke_test_gaps-IsSmokeFree :
    (wp : Value)
    → smoke_test_gaps true wp ≡ []
    → (probe : Value) × (get wp "smoke_probe" ≡ some probe) × IsSmokeFree probe
unfolding smoke_test_gaps
smoke_test_gaps-IsSmokeFree wp h = elim (Option-cases (ran_probe (get wp "smoke_probe"))) [
  | inl eq ↦ absurd (ground arith)
  | inr (probe, eq) ↦
      let (here, ran) = ran_is_probe (get wp "smoke_probe") probe eq in
      let passed = and_then (get probe "passed") as_u64 in
      let total = and_then (get probe "total") as_u64 in
      let (n, counted, listed, summed) =
        summary_gaps-empty probe (unwrap_or (and_then (get probe "failed") as_array) []) passed
          total (rw eq at h) in
      (
        probe,
        here,
        record {
          total = n;
          ran = ran;
          counted = counted;
          none_listed = listed;
          passed_all = some_passed passed total n counted summed;
        },
      )
]

-- The probe of contract mutants leaves no gap exactly when none was made, or it ran and found no mutant
-- decorative.
contract_mutant_gaps_iff :
    (probe : Value)
    → is_empty (contract_mutant_gaps probe) ≡ (
        if is_null probe
        then true
        else if is_true (as_bool (at probe "ran"))
        then not (any is_decorative (probed_mutants probe))
        else false)
unfolding contract_mutant_gaps
contract_mutant_gaps_iff probe = ground (arith, is_empty-none is_decorative (probed_mutants probe))

-- A probe that did not run says why, as those that `probe_absent` builds do.
abbrev pub says_why : Value → Bool
says_why probe = has_run probe || is_some (get_str probe "reason")

-- WP's memory model assumed nothing that the probe could see, or there is no proof to rest on such an
-- assumption.
abbrev pub IsMemoryQuiet : Value → Type 0
IsMemoryQuiet probe =
    (has_run probe ≡ true)
      × (any names_function (hypothesis_entries probe) ≡ false)
      × (unparsed_hypothesis_warnings probe ≡ 0)
    ⊎ (has_run probe ≡ false) × (nothing_was_proved probe ≡ true)

probe_absent-says_why :
    (reason : String) (proved_nothing : Bool) → says_why (probe_absent reason proved_nothing) ≡ true
unfolding probe_absent find_field
probe_absent-says_why reason proved_nothing = refl

-- When WP was asked for, the probe of its memory model ran or says why it did not, and neither gap of the
-- memory model is there, then the probe ran, named no function and could read every warning, or it did not
-- run and says that nothing was proved.
pub memory_gaps-IsMemoryQuiet :
    (probe : Value) (wanted : WantedAnalyses)
    → wanted.wp ≡ true
    → says_why probe ≡ true
    → memory_model_hypothesis_gap probe ≡ none
    → memory_model_unchecked_gap probe wanted ≡ none
    → IsMemoryQuiet probe
unfolding memory_model_hypothesis_gap memory_model_unchecked_gap parsed_hypothesis_entries
    has_parsed_hypothesis_entry
memory_gaps-IsMemoryQuiet probe wanted w y h u = elim (Bool-cases (has_run probe)) [
  | inl ran ↦
      let unnamed : any names_function (hypothesis_entries probe) ≡ false =
        ground (arith, is_empty-none names_function (hypothesis_entries probe)) in
      inl (ran, unnamed, ground (arith, ==_iff (unparsed_hypothesis_warnings probe) 0))
  | inr idle ↦ elim (Option-cases (get_str probe "reason")) [
    | inl eq ↦ absurd (ground arith)
    | inr (reason, eq) ↦ inr (idle, ground arith)
  ]
]

-- No run has both gaps.
memory_gaps_exclude :
    (probe : Value) (wanted : WantedAnalyses)
    → is_some (memory_model_hypothesis_gap probe) ≡ true
    → memory_model_unchecked_gap probe wanted ≡ none
unfolding memory_model_hypothesis_gap memory_model_unchecked_gap parsed_hypothesis_entries
    has_parsed_hypothesis_entry
memory_gaps_exclude probe wanted h =
    ground (arith, is_empty-none names_function (hypothesis_entries probe))
