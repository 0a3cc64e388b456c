-- ===== src/Check.antt =====
-- What a check reports as open (src/mcp/checkgaps.rs), and the verdict that follows from it
-- (src/mcp/analysis.rs, `check_payload`). A gap is the JSON object that the source pushes, its texts
-- included; each function answers the gaps that the source's function pushes, in their order.
pub mod Load
pub mod Gates
pub mod Messages
pub mod Variants
pub mod Probes
pub mod Target
pub mod Rows
pub mod Proofread
pub mod Items
use Prim.Native.String.{◌++◌ as append}
use frama_c_mcp.Prelude.{
  String, Bool, true, false, ◌&&◌, ◌||◌, not, Option, none, some, List, [], ◌∷◌, ◌++◌, any,
  is_empty, ◌=ˢ◌, if◌then◌else◌,
}
use frama_c_mcp.Json.{
  Value, null, boolean, string, obj, at, get, as_str, as_bool, and_then, or_else, unwrap_or,
  is_null, is_some, is_some_and, is_text, pointer,
}

abbrev pub gap : String → String → List (String × Value) → Value
gap code reason fields = obj (("code", string code) ∷ ("reason", string reason) ∷ fields)

-- `get(name).cloned().unwrap_or_else(|| json!(null))` under the same name
abbrev pub copied : String → Value → String × Value
copied name v = (name, at v name)

pub data CheckAnalysis : Type 0 where
  eva_wanted wp_wanted : CheckAnalysis

pub record WantedAnalyses : Type 0 where
  pub eva : Bool
  pub wp : Bool

abbrev is_eva : CheckAnalysis → Bool
is_eva eva_wanted = true
is_eva wp_wanted = false

-- an absent list and an empty one ask for both
unfoldable pub from_want : Option (List CheckAnalysis) → WantedAnalyses
from_want none = record { eva = true; wp = true }
from_want (some []) = record { eva = true; wp = true }
from_want (some (w ∷ ws)) = record {
  eva = any is_eva (w ∷ ws);
  wp = any (λ x. not (is_eva x)) (w ∷ ws);
}

-- `Some(false) == option` and `Some(true) == option`
abbrev pub is_false : Option Bool → Bool
is_false o = is_some_and o not

abbrev pub is_true : Option Bool → Bool
is_true o = is_some_and o (λ b. b)

unfoldable pub check_step_failed : Value → Bool
check_step_failed value = is_null value || is_false (and_then (get value "ok") as_bool)

unfoldable pub eva_unfinished_state : Value → Option String
eva_unfinished_state eva =
    and_then (and_then (get eva "computation_state") as_str)
      (λ state. if state =ˢ "computed" then none else some state)

-- whether the run of WP generated the runtime-error goals itself
abbrev wp_covered_runtime_errors : Value → WantedAnalyses → Bool
wp_covered_runtime_errors wp wanted =
    wanted.wp && is_true (and_then (pointer wp ("effective_wp_config" ∷ "rte" ∷ [])) as_bool)

unfoldable pub unrequested_analysis_gaps : Option Bool → Value → WantedAnalyses → List Value
unrequested_analysis_gaps rte wp wanted =
    (if wanted.eva
      then []
      else gap "EVA_NOT_REQUESTED"
          "check did not run EVA, so nothing here excludes the alarms it finds." []
        ∷ [])
    ++ (if wanted.wp
        then []
        else gap "WP_NOT_REQUESTED" "check did not run WP, so nothing here is a proof." [] ∷ [])
    ++ (if is_false rte
        then gap "RTE_DISABLED"
            (if wp_covered_runtime_errors wp wanted
              then "check loaded without RTE annotations, so EVA's alarms exclude implicit runtime-error checks. WP generated its own RTE obligations in place for this run, so the goals do cover them."
              else "check ran without RTE annotations, so absence of alarms/goals excludes implicit runtime-error checks.")
            []
          ∷ []
        else [])

-- `quote` is the `{:?}` of a text.
abbrev eva_error : (String → String) → Value → Value → Value → Value
eva_error quote reload eva eva_alarms =
    unwrap_or
      (or_else (or_else (or_else (get eva "error") (get eva_alarms "error")) (get reload "error")) (
        and_then (eva_unfinished_state eva) (λ state. some (
          string
            (append "EVA computation state is " (append (quote state) ", not \"computed\""))))))
      null

unfoldable pub eva_failed : Value → Value → Value → Bool
eva_failed reload eva eva_alarms =
    check_step_failed reload
    || check_step_failed eva
    || check_step_failed eva_alarms
    || is_some (eva_unfinished_state eva)

unfoldable pub wp_failed : Value → Value → Value → Bool
wp_failed reload wp wp_goals =
    check_step_failed reload || check_step_failed wp || check_step_failed wp_goals

-- `quote` is the `{:?}` of a text.
unfoldable pub step_failure_gaps :
    (String → String) → Value → Value → Value → Value → Value → WantedAnalyses → List Value
unfolding eva_failed wp_failed
step_failure_gaps quote reload eva eva_alarms wp wp_goals wanted =
    (if wanted.eva && eva_failed reload eva eva_alarms
      then gap "EVA_NOT_RUN" "EVA did not complete, so eva_alarms is not proof of no alarms."
          (("error", eva_error quote reload eva eva_alarms) ∷ [])
        ∷ []
      else [])
    ++ (if not wanted.wp
        then []
        else if wp_failed reload wp wp_goals
        then gap "WP_NOT_RUN" "WP did not complete, so wp_goals is not proof of no goals." (
            (
              "error",
              unwrap_or
                  (or_else (or_else (get wp "error") (get wp_goals "error")) (get reload "error"))
                  null,
            )
            ∷ [])
          ∷ []
        else if is_true (and_then (get wp "drained") as_bool)
        then []
        else gap "WP_STILL_RUNNING"
            "WP was still working when its goals were read, so wp_goals may be missing goals entirely."
            (copied "todo" wp ∷ copied "active" wp ∷ [])
          ∷ [])

-- the end of `check_payload`
unfoldable pub verdict_of : List Value → String
verdict_of incomplete = if is_empty incomplete then "proved" else "incomplete"
