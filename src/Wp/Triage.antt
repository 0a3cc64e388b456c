-- ===== src/Wp/Triage.antt =====
-- What the timeouts of a run show (src/mcp/wpclass.rs, `wp_timeout_triage_from_goal` and `run_measurement`).
pub mod Replayed
use frama_c_mcp.Prelude.{
  ℕ, ◌+◌, String, Bool, true, false, ◌&&◌, ◌||◌, not, Option, none, some, List, [], ◌∷◌, ltb, ◌==◌,
  ◌=ˢ◌, length, if◌then◌else◌,
}
use frama_c_mcp.Json.{
  Value, null, boolean, number, string, arr, obj, unwrap_or, is_text, is_some_and, is_some,
}
use frama_c_mcp.Status.{
  consolidated_status, raw_status, status_is_timeout, own_status_is_proved, own_status_is_timeout,
}
use frama_c_mcp.Coverage.Report.{goal_is_from_cache, one_if}

unfoldable pub wp_timeout_triage : String → Bool → String → String → Value → Value
wp_timeout_triage kind retry_with_higher_prover_timeout confidence reason evidence = obj (
    ("kind", string kind)
    ∷ ("retry_with_higher_prover_timeout", boolean retry_with_higher_prover_timeout)
    ∷ ("confidence", string confidence)
    ∷ ("reason", string reason)
    ∷ ("evidence", evidence)
    ∷ [])

unfoldable pub wp_timeout_triage_none : Value
unfolding wp_timeout_triage
wp_timeout_triage_none =
    wp_timeout_triage "none" false "high"
      "No timeout, cancellation, rejection, or delayed WP status evidence was found." (arr [])

abbrev replayed_goal_reason : String
replayed_goal_reason =
    "This goal's verdict came back from WP's cache rather than being attempted on this run, so nothing here measured it. WP's cache defaults to Update and stores timeout verdicts too. Re-run with cache: \"None\" before treating it as a property of the goal."

abbrev field_is : String → Value → Value
field_is field value = obj (("field", string field) ∷ ("value", value) ∷ [])

unfoldable pub replayed_goal_triage : String → Value
replayed_goal_triage kind =
    wp_timeout_triage kind false "low" replayed_goal_reason
      (arr (field_is "from_cache" (boolean true) ∷ []))

-- the triage of a goal that timed out, by where its verdict came from
unfoldable pub timed_out_triage : Option Bool → String → String → Value
timed_out_triage (some true) normalized raw = replayed_goal_triage "prover_timeout"
timed_out_triage none normalized raw =
    wp_timeout_triage "prover_timeout" false "low"
      "WP reports a prover timeout, but cache provenance is unavailable; refresh the goal before changing the timeout."
      (arr (
        field_is "from_cache" null
        ∷ field_is "normalized_status" (string normalized)
        ∷ field_is "raw_status" (string raw)
        ∷ []))
timed_out_triage (some false) normalized raw =
    wp_timeout_triage "prover_timeout" true "high"
      "The WP goal itself reports a prover timeout; a higher prover timeout may help."
      (arr (
        field_is "normalized_status" (string normalized) ∷ field_is "raw_status" (string raw) ∷ []))

-- no prover has answered yet
abbrev is_pending : String → Option String → Bool
is_pending normalized raw =
    (normalized =ˢ "noresult" || normalized =ˢ "unknown")
    && (is_text raw "NORESULT" || is_text raw "Never_tried")

unfoldable pub wp_timeout_triage_from_goal : Value → Value
wp_timeout_triage_from_goal goal =
    let normalized = unwrap_or (consolidated_status goal) "unknown" in
    let raw = unwrap_or (raw_status goal) normalized in
    if status_is_timeout normalized || status_is_timeout raw
    then timed_out_triage (goal_is_from_cache goal) normalized raw
    else if is_pending normalized (raw_status goal)
    then wp_timeout_triage "status_propagation_delay" false "medium"
        "WP has no final prover timeout status yet; refresh goals before changing timeout."
        (arr (
          field_is "normalized_status" (string normalized)
          ∷ field_is "raw_status" (string raw)
          ∷ []))
    else if is_some_and (goal_is_from_cache goal) (λ b. b)
    then replayed_goal_triage "none"
    else wp_timeout_triage_none

pub record RunMeasurement : Type 0 where
  pub goals : ℕ
  pub replayed : ℕ
  pub replayed_unknown : ℕ
  pub unproved : ℕ
  pub unproved_replayed : ℕ
  pub timed_out : ℕ
  pub timed_out_replayed : ℕ

unfoldable pub every_timed_out_goal_was_replayed : RunMeasurement → Bool
every_timed_out_goal_was_replayed m = ltb 0 m.timed_out && (m.timed_out_replayed == m.timed_out)

unfoldable pub measurement_to_json : RunMeasurement → Value
measurement_to_json m = obj (
    ("goals", number m.goals)
    ∷ ("replayed", number m.replayed)
    ∷ ("replayed_unknown", number m.replayed_unknown)
    ∷ ("unproved", number m.unproved)
    ∷ ("unproved_replayed", number m.unproved_replayed)
    ∷ ("timed_out", number m.timed_out)
    ∷ ("timed_out_replayed", number m.timed_out_replayed)
    ∷ ("every_timed_out_goal_was_replayed", boolean (every_timed_out_goal_was_replayed m))
    ∷ [])

abbrev pub is_cached : Value → Bool
is_cached goal = is_some_and (goal_is_from_cache goal) (λ b. b)

-- one goal more
unfoldable pub measure_goal : RunMeasurement → Value → RunMeasurement
measure_goal m goal =
    let unproved = not (own_status_is_proved goal) in
    let timed_out = own_status_is_timeout goal in
    let cached = is_cached goal in
    record m {
      replayed = m.replayed + one_if cached;
      replayed_unknown = m.replayed_unknown + one_if (not (is_some (goal_is_from_cache goal)));
      unproved = m.unproved + one_if unproved;
      unproved_replayed = m.unproved_replayed + one_if (unproved && cached);
      timed_out = m.timed_out + one_if timed_out;
      timed_out_replayed = m.timed_out_replayed + one_if (timed_out && cached);
    }

unfoldable pub measure_goals : RunMeasurement → List Value → RunMeasurement
measure_goals m [] = m
measure_goals m (goal ∷ goals) = measure_goals (measure_goal m goal) goals

unfoldable pub run_measurement : List Value → RunMeasurement
run_measurement goals =
    measure_goals
      (record {
        goals = length goals;
        replayed = 0;
        replayed_unknown = 0;
        unproved = 0;
        unproved_replayed = 0;
        timed_out = 0;
        timed_out_replayed = 0;
      })
      goals
