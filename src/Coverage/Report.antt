-- ===== src/Coverage/Report.antt =====
-- The report of proof coverage (src/mcp/coverage.rs, `percent` and the second half of
-- `proof_coverage_report`). The quotient of two counts, as a float, is an argument.
pub mod Members
pub mod Established
pub mod Complete
use Prim.Native.Nat.{Ordering}
use Prim.Native.String.{compare}
use frama_c_mcp.Prelude.{
  ℕ, zero, suc, ◌+◌, ◌-◌, String, Bool, true, false, ◌&&◌, ◌||◌, not, Option, none, some, List, [],
  ◌∷◌, ◌++◌, map, filter_by, length, is_empty, ltb, ◌==◌, if◌then◌else◌,
}
use frama_c_mcp.Json.{
  Value, null, boolean, number, other_number, string, obj, arr, get, get_str, as_bool, as_array,
  and_then, unwrap_or, is_some, is_some_and,
}
use frama_c_mcp.Status.{normalize_frama_c_status}
use frama_c_mcp.Receipt.{receipt_goal_is_progress}
use frama_c_mcp.Session.Data.{FunctionVerificationState}
use frama_c_mcp.Coverage.{Row, propagate_unverified_callees}
use frama_c_mcp.Coverage.Profile.{VerificationProfile, texts, text_or_null}
use frama_c_mcp.Coverage.Rows.{Setting, sorted_names, target_rows, receipts_of, is_in}

unfoldable pub percent : (ℕ → ℕ → Value) → ℕ → ℕ → Value
percent quotient numerator denominator =
    if denominator == 0 then other_number "0.0" else quotient numerator denominator

pub record GoalCounts : Type 0 where
  pub by_status : List (String × ℕ)
  pub valid : ℕ
  pub cached_valid : ℕ
  pub fresh_valid : ℕ
  pub total : ℕ

-- one more of a key, in a list in the order of its keys
unfoldable pub count_one : String → List (String × ℕ) → List (String × ℕ)
count_one k [] = (k, 1) ∷ []
count_one k ((j, n) ∷ m) =
    let rest = count_one k m in
    elim (compare k j) [
      | Ordering.lt ↦ (k, 1) ∷ (j, n) ∷ m
      | Ordering.eq ↦ (j, suc n) ∷ m
      | Ordering.gt ↦ (j, n) ∷ rest
    ]

abbrev pub goal_is_from_cache : Value → Option Bool
goal_is_from_cache goal = and_then (get goal "from_cache") as_bool

abbrev pub one_if : Bool → ℕ
one_if b = if b then 1 else 0

unfoldable pub count_goal : GoalCounts → Value → GoalCounts
count_goal counts goal =
    let progress = receipt_goal_is_progress goal in
    record {
      by_status =
          count_one (normalize_frama_c_status (unwrap_or (get_str goal "status") "unknown"))
            counts.by_status;
      valid = one_if progress + counts.valid;
      cached_valid =
          one_if (progress && is_some_and (goal_is_from_cache goal) (λ b. b)) + counts.cached_valid;
      fresh_valid =
          one_if (progress && is_some_and (goal_is_from_cache goal) not) + counts.fresh_valid;
      total = suc counts.total;
    }

unfoldable pub count_goals : GoalCounts → List Value → GoalCounts
count_goals counts [] = counts
count_goals counts (goal ∷ goals) = count_goals (count_goal counts goal) goals

abbrev goals_in : Value → List Value
goals_in receipt = unwrap_or (and_then (get receipt "goals") as_array) []

unfoldable pub count_receipts : GoalCounts → List (String × Value) → GoalCounts
count_receipts counts [] = counts
count_receipts counts ((key, receipt) ∷ receipts) =
    count_receipts (count_goals counts (goals_in receipt)) receipts

abbrev pub no_goals : GoalCounts
no_goals = record { by_status = []; valid = 0; cached_valid = 0; fresh_valid = 0; total = 0 }

-- the counts over the receipts in scope
unfoldable pub goal_counts : List Row → GoalCounts
goal_counts rows = count_receipts no_goals (receipts_of [] rows)

abbrev pub is_covered : Row → Bool
is_covered row = not (is_some row.reason)

unfoldable pub is_complete : List String → List Row → Bool
is_complete targets rows =
    not (is_empty targets)
    && length (filter_by is_covered rows) == length targets
    && (goal_counts rows).valid == (goal_counts rows).total
    && ltb 0 (goal_counts rows).total

concat_of : (Row → List String) → List Row → List String
concat_of f [] = []
concat_of f (row ∷ rows) = f row ++ concat_of f rows

row_value : Row → Value
row_value row = obj (
    ("function", string row.function)
    ∷ ("covered", boolean (is_covered row))
    ∷ ("status", string row.status)
    ∷ ("reason", text_or_null row.reason)
    ∷ ("blocking_callees", texts row.blocking_callees)
    ∷ ("changed_source_count", number row.changed_source_count)
    ∷ ("unchecked_source_count", number (length row.unchecked_sources + row.unnamed_sources))
    ∷ ("proof_receipt_sha256", text_or_null row.receipt_sha256)
    ∷ [])

sum_unnamed : List Row → ℕ
sum_unnamed [] = 0
sum_unnamed (row ∷ rows) = row.unnamed_sources + sum_unnamed rows

limitations : List String
limitations =
    "WP coverage is over obligations generated by the loaded ACSL, RTE, and WP configuration; omitted requirements are outside this denominator."
    ∷ "Goal counts are deduplicated by proof receipt because one WP run can be stored as evidence for several functions."
    ∷ "A source file a receipt named but that cannot be read now is counted under unchecked_sources rather than judged, so evidence from a deleted sandbox is reported as unverifiable rather than as unchanged."
    ∷ "Functions this project declares without defining are listed under scope.declared_not_defined and are outside both denominators."
    ∷ "WP only. EVA alarms are not read here, so a complete verdict is a statement about proof obligations rather than about every analysis this server can run."
    ∷ "A target's own command may run checks this server does not, such as a floor on obligations generated or a separate script over the same sources. A profile declares them under build_gates and coverage does not run them, so complete here is not the build's verdict. The list is the profile author's declaration rather than anything this server can verify, so an empty one means none were declared, not that none exist."
    ∷ "Whether a covered function declares an assigns clause is not checked, because the conclusion's specs are supplied by the caller and may be absent for a function that has one."
    ∷ []

scope_value : Option (String × VerificationProfile) → List String → Value
scope_value verify_profile declared_elsewhere = obj (
    ("verify_profile", elim verify_profile [ none ↦ null | some (name, profile) ↦ string name ])
    ∷ (
      "source",
      string (if is_some verify_profile then "verify_profile" else "loaded_defined_functions"),
    )
    ∷ ("declared_not_defined", texts declared_elsewhere)
    ∷ [])

goal_coverage : (ℕ → ℕ → Value) → GoalCounts → ℕ → Value
goal_coverage quotient counts receipts = obj (
    ("valid", number counts.valid)
    ∷ ("total", number counts.total)
    ∷ ("percent", percent quotient counts.valid counts.total)
    ∷ ("by_status", obj (map (λ (e : String × ℕ). (e.0, number e.1)) counts.by_status))
    ∷ ("fresh_valid", number counts.fresh_valid)
    ∷ ("cached_valid", number counts.cached_valid)
    ∷ ("unique_receipts", number receipts)
    ∷ [])

-- the report over the rows; `full` is `detail.is_full()`
unfoldable pub report_of :
    (ℕ → ℕ → Value)
    → Bool
    → Option (String × VerificationProfile)
    → List String
    → List String
    → List Row
    → Value
unfolding concat_of row_value sum_unnamed limitations scope_value goal_coverage
report_of quotient full verify_profile targets declared_elsewhere rows =
    let covered = length (filter_by is_covered rows) in
    let shown = filter_by (λ row. full || is_some row.reason) rows in
    obj (
      ("schema", string "frama-c-mcp.proof-coverage.v1")
      ∷ ("verdict", string (if is_complete targets rows then "complete" else "incomplete"))
      ∷ ("scope", scope_value verify_profile declared_elsewhere)
      ∷ (
        "function_coverage",
        obj (
            ("valid", number covered)
            ∷ ("total", number (length targets))
            ∷ ("percent", percent quotient covered (length targets))
            ∷ []),
      )
      ∷ ("goal_coverage", goal_coverage quotient (goal_counts rows) (length (receipts_of [] rows)))
      ∷ ("functions", arr (map row_value shown))
      ∷ ("functions_omitted", number (length rows - length shown))
      ∷ ("changed_sources", texts (sorted_names (concat_of (λ row. row.changed_sources) rows)))
      ∷ ("unchecked_sources", texts (sorted_names (concat_of (λ row. row.unchecked_sources) rows)))
      ∷ ("unnamed_sources", number (sum_unnamed rows))
      ∷ ("limitations", texts limitations)
      ∷ [])

-- The lists are sorted and their doubles dropped; the rows are propagated for one round more than there
-- are rows.
unfoldable pub proof_coverage_report :
    (ℕ → ℕ → Value)
    → Setting
    → Bool
    → List String
    → List String
    → List String
    → List (String × FunctionVerificationState)
    → Option Value
proof_coverage_report quotient t full targets declared_only defined conclusions =
    let wanted = sorted_names targets in
    let undefined_targets = filter_by (λ name. not (is_in name defined)) wanted in
    let declared_elsewhere =
      filter_by (λ name. not (is_in name undefined_targets)) (sorted_names declared_only) in
    let rows = target_rows t defined conclusions [] wanted in
    and_then (propagate_unverified_callees (suc (length rows)) rows)
      (λ out. some (report_of quotient full t.verify_profile wanted declared_elsewhere out))
