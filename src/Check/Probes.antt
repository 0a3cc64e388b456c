-- ===== src/Check/Probes.antt =====
-- Gaps of the probes that run beside WP (src/mcp/checkgaps.rs): smoke tests, contract mutants and the
-- hypotheses of the memory model.
pub mod Quiet
use Prim.Native.Nat.{max}
use Prim.Native.String.{◌++◌ as append}
use frama_c_mcp.Prelude.{
  ℕ, ◌+◌, ◌-◌, ◌%◌, ◌^◌, String, Bool, true, false, ◌&&◌, ◌||◌, not, Option, none, some, List, [],
  ◌∷◌, ◌++◌, any, filter_by, length, is_empty, take, ltb, ◌==◌, decimal, if◌then◌else◌,
}
use frama_c_mcp.Json.{
  Value, null, boolean, number, string, obj, arr, at, get, get_str, as_str, as_bool, as_u64,
  as_array, and_then, unwrap_or, is_null, is_some_and, is_text,
}
use frama_c_mcp.Check.{gap, copied, is_true, WantedAnalyses}

-- `get("ran").and_then(as_bool) == Some(true)`
abbrev pub has_run : Value → Bool
has_run probe = is_true (and_then (get probe "ran") as_bool)

abbrev smoke_unchecked : String → Value
smoke_unchecked reason = gap "SMOKE_TEST_UNCHECKED" reason []

abbrev number_or_null : Option ℕ → Value
number_or_null none = null
number_or_null (some n) = number n

-- what the summary of the smoke tests counts as proved: its total less what passed
abbrev pub summary_failed : Option ℕ → Option ℕ → ℕ
summary_failed (some passed) (some total) = total - passed
summary_failed _ _ = 0

count_kind : List Value → String → Value
count_kind detail kind =
    number (length (filter_by (λ d. is_text (as_str (at d "kind")) kind) detail))

-- the counts by kind, when the probe gave details
kinds : Value → List (String × Value)
unfolding count_kind
kinds probe = elim (and_then (get probe "failed_detail") as_array) [
  | none ↦ []
  | some detail ↦
      (
        "by_kind",
        obj (
            ("contract_vacuous", count_kind detail "contract_vacuous")
            ∷ ("unreachable_code", count_kind detail "unreachable_code")
            ∷ ("unclassified", count_kind detail "unclassified")
            ∷ []),
      )
      ∷ ("failed_detail", arr detail)
      ∷ []
]

-- the gaps of a probe that ran
unfoldable pub summary_gaps : Value → List Value → Option ℕ → Option ℕ → List Value
unfolding kinds
summary_gaps probe failed passed none =
    smoke_unchecked
      "The smoke probe ran and WP printed no smoke summary, so no smoke goal was generated and whether the specification is vacuous is unanswered."
    ∷ []
summary_gaps probe failed passed (some total) =
    let counted = summary_failed passed (some total) in
    if is_empty failed && counted == 0
    then []
    else gap "SMOKE_TEST_FAILED"
        (append "WP proved " (
          append (decimal (max (length failed) counted))
            " smoke goal(s), so part of what was proved holds over no execution."))
        ((("failed", arr failed) ∷ ("passed", number_or_null passed) ∷ ("total", number total) ∷ [])
          ++ kinds probe)
      ∷ []

abbrev pub ran_probe : Option Value → Option Value
ran_probe none = none
ran_probe (some probe) = if has_run probe then some probe else none

unfoldable pub smoke_test_gaps : Bool → Value → List Value
smoke_test_gaps requested wp =
    if not requested then [] else elim (ran_probe (get wp "smoke_probe")) [
      | none ↦
          smoke_unchecked (
            unwrap_or
              (and_then (and_then (get wp "smoke_probe") (λ probe. get probe "reason")) as_str)
              "WP did not complete, so no smoke probe ran")
          ∷ []
      | some probe ↦
          summary_gaps probe (unwrap_or (and_then (get probe "failed") as_array) [])
            (and_then (get probe "passed") as_u64) (and_then (get probe "total") as_u64)
    ]

abbrev pub is_decorative : Value → Bool
is_decorative m = is_text (as_str (at m "verdict")) "decorative"

abbrev pub probed_mutants : Value → List Value
probed_mutants probe = unwrap_or (as_array (at probe "mutants")) []

unfoldable pub contract_mutant_gaps : Value → List Value
contract_mutant_gaps probe =
    let decorative = filter_by is_decorative (probed_mutants probe) in
    if is_null probe
    then []
    else if not (is_true (as_bool (at probe "ran")))
    then gap "CONTRACT_MUTANTS_UNCHECKED"
        (unwrap_or (as_str (at probe "reason")) "the mutant probe did not run") []
      ∷ []
    else if is_empty decorative
    then []
    else gap "CONTRACT_DECORATIVE"
        "A stub body proves every postcondition of the contract, so the proof does not distinguish the function from the stub."
        (("mutants", arr decorative) ∷ [])
      ∷ []

unfoldable pub hypothesis_entries : Value → List Value
hypothesis_entries probe = unwrap_or (and_then (get probe "hypotheses") as_array) []

abbrev pub names_function : Value → Bool
names_function entry = is_some_and (get entry "function") (λ name. not (is_null name))

unfoldable pub parsed_hypothesis_entries : Value → List Value
parsed_hypothesis_entries probe = filter_by names_function (hypothesis_entries probe)

-- the sum of the counts that are there, on 64 bits
unfoldable pub sum_counts : List Value → ℕ
sum_counts [] = 0
sum_counts (entry ∷ rest) =
    (unwrap_or (and_then (get entry "unparsed_warning_count") as_u64) 0 + sum_counts rest) % 2 ^ 64

unfoldable pub unparsed_hypothesis_warnings : Value → ℕ
unparsed_hypothesis_warnings probe = sum_counts (hypothesis_entries probe)

unfoldable pub has_parsed_hypothesis_entry : Value → Bool
has_parsed_hypothesis_entry probe = any names_function (hypothesis_entries probe)

abbrev hypothesis_sample : ℕ
hypothesis_sample = 20

unfoldable pub memory_model_hypothesis_gap : Value → Option Value
memory_model_hypothesis_gap probe =
    let sample = parsed_hypothesis_entries probe in
    if not (has_run probe)
    then none
    else if is_empty sample
    then none
    else some (
        gap "WP_MEMORY_MODEL_HYPOTHESIS"
          "WP's memory model assumed these separations to discharge this run's goals, and emitted no obligation for any of them. A goal reported valid here is valid only for callers that satisfy them."
          (("function_count", number (length sample))
            ∷ ("functions", arr (take hypothesis_sample sample))
            ∷ ("functions_truncated", boolean (ltb hypothesis_sample (length sample)))
            ∷ ("unparsed_warning_count", number (unparsed_hypothesis_warnings probe))
            ∷ copied "read_from" probe
            ∷ []))

abbrev hypotheses_unknown : String → List (String × Value) → Value
hypotheses_unknown reason fields = gap "WP_MEMORY_MODEL_UNCHECKED" reason fields

abbrev pub nothing_was_proved : Value → Bool
nothing_was_proved probe = unwrap_or (and_then (get probe "nothing_was_proved") as_bool) false

unfoldable pub memory_model_unchecked_gap : Value → WantedAnalyses → Option Value
memory_model_unchecked_gap probe wanted =
    let unparsed = unparsed_hypothesis_warnings probe in
    if not wanted.wp
    then none
    else if has_run probe
    then if unparsed == 0 || has_parsed_hypothesis_entry probe
      then none
      else some (
          hypotheses_unknown
            (append "WP printed " (
              append (decimal unparsed)
                " memory-model hypothesis warning(s) whose wording this server could not parse, so the separations it assumed are unknown rather than absent. A goal reported valid here is not evidence that the model assumed nothing."))
            (("probe_reason", string "the probe ran and could not parse what WP printed")
              ∷ ("unparsed_warning_count", number unparsed)
              ∷ copied "exit_code" probe
              ∷ []))
    else elim (get_str probe "reason") [
      | none ↦ none
      | some reason ↦
          if nothing_was_proved probe
          then none
          else some (
              hypotheses_unknown
                (append
                  "WP's memory-model hypotheses are unknown for this run: the probe could not read them ("
                  (append reason
                    "). A goal reported valid here is not evidence that the model assumed nothing."))
                (("probe_reason", string reason) ∷ copied "exit_code" probe ∷ []))
    ]

-- the shape that a probe that read nothing has
unfoldable pub probe_absent : String → Bool → Value
probe_absent reason proved_nothing = obj (
    ("ran", boolean false)
    ∷ ("reason", string reason)
    ∷ ("nothing_was_proved", boolean proved_nothing)
    ∷ ("hypotheses", arr [])
    ∷ [])
