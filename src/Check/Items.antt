-- ===== src/Check/Items.antt =====
-- All gaps of a check (src/mcp/checkgaps.rs, `check_incomplete_items`), with the server's empty list of
-- allowed warnings.
pub mod Append
pub mod Clean
pub mod Goals
pub mod Parts
pub mod Sound
use frama_c_mcp.Prelude.{String, Bool, Option, none, some, List, [], ◌∷◌, ◌++◌}
use frama_c_mcp.Json.{Value}
use frama_c_mcp.Check.{WantedAnalyses, unrequested_analysis_gaps, step_failure_gaps}
use frama_c_mcp.Check.Load.{ast_diagnostic_gaps, compile_flags_dropped_gap}
use frama_c_mcp.Check.Rows.{property_row_gaps, wp_goal_gaps}
use frama_c_mcp.Check.Proofread.{proofread_finding_gaps}

-- `extend` with an option
abbrev pub option_list : Option Value → List Value
option_list none = []
option_list (some v) = v ∷ []

unfoldable pub check_incomplete_items :
    (String → String)
    → Option Bool
    → Value
    → Value
    → Value
    → Value
    → Value
    → WantedAnalyses
    → List Value
check_incomplete_items quote rte reload eva eva_alarms wp wp_goals wanted =
    ast_diagnostic_gaps reload []
    ++ option_list (compile_flags_dropped_gap reload)
    ++ unrequested_analysis_gaps rte wp wanted
    ++ step_failure_gaps quote reload eva eva_alarms wp wp_goals wanted
    ++ property_row_gaps eva_alarms wp_goals
    ++ (wp_goal_gaps eva_alarms wp_goals).0
    ++ proofread_finding_gaps wp (wp_goal_gaps eva_alarms wp_goals).1
