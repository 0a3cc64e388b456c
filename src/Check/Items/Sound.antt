-- ===== src/Check/Items/Sound.antt =====
-- What a check with nothing open has established.
use frama_c_mcp.Prelude.{String, ◌≡◌, Bool, true, false, Option, [], any, all}
use frama_c_mcp.Json.{Value, get, as_bool, as_array, and_then, unwrap_or}
use frama_c_mcp.Check.{
  WantedAnalyses, eva_failed, wp_failed, is_false, is_true, unrequested_analysis_gaps,
  step_failure_gaps,
}
use frama_c_mcp.Check.Load.{ast_diagnostic_gaps, compile_flags_dropped_gap}
use frama_c_mcp.Check.Rows.{rows_gaps, property_row_gaps, wp_goal_gaps}
use frama_c_mcp.Check.Proofread.{findings_gaps, proofread_findings, proofread_finding_gaps}
use frama_c_mcp.Check.Items.{option_list, check_incomplete_items}
use frama_c_mcp.Check.Items.Append.{seven-empty, option_list-none}
use frama_c_mcp.Check.Items.Goals.{is_established, goals_established}
use frama_c_mcp.Check.Items.Clean.{is_clean, all_clean, rows_gaps-is_quiet}
use frama_c_mcp.Check.Items.Parts.{
  keeps_flags, compile_flags_dropped_gap-keeps_flags, is_open_finding, IsParsed,
  findings_gaps-closed, ast_diagnostic_gaps-IsParsed, unrequested_none, steps_none,
}

-- What a run with nothing open has shown: both analyses were asked for and ran to their end with
-- runtime-error checks on, nothing that the load reports was dropped by the front end, the rows of the
-- property table are clean, the goals are established, and no finding of the proofreading leaves the contract
-- open.
pub record IsComplete (rte : Option Bool) (reload eva eva_alarms wp wp_goals : Value)
    (wanted : WantedAnalyses) : Type 0 where
  pub parsed : IsParsed reload
  pub flags : keeps_flags reload ≡ true
  pub both : (wanted.eva ≡ true) × (wanted.wp ≡ true)
  pub checked : is_false rte ≡ false
  pub eva_ran : eva_failed reload eva eva_alarms ≡ false
  pub wp_ran : wp_failed reload wp wp_goals ≡ false
  pub drained : is_true (and_then (get wp "drained") as_bool) ≡ true
  pub rows : all (is_clean wp_goals) (unwrap_or (as_array eva_alarms) []) ≡ true
  pub goals :
      all (is_established (unwrap_or (as_array eva_alarms) [])) (unwrap_or (as_array wp_goals) [])
      ≡ true
  pub closed :
      any (is_open_finding (wp_goal_gaps eva_alarms wp_goals).1) (proofread_findings wp) ≡ false

-- When the list of gaps is empty: both analyses were asked for and ran to their end with runtime-error
-- checks on and WP drained; the load does not say that the front end's record is missing, lists no category
-- of parse diagnostics with a count and, as far as it could read them, no dropped flag; no row of the property
-- table is inconsistent, an alarm left open, dead code, a lemma without a proof, disproved or assumed; every
-- goal of a lemma is valid, and every other one counts as progress or was proved of a property that is neither
-- dead, vacuous nor under hypotheses; and no finding of the proofreading leaves the contract or a call open or rests on a goal that was judged.
pub check_incomplete_items-IsComplete :
    (quote : String → String) (rte : Option Bool) (reload eva eva_alarms wp wp_goals : Value)
    (wanted : WantedAnalyses)
    → check_incomplete_items quote rte reload eva eva_alarms wp wp_goals wanted ≡ []
    → IsComplete rte reload eva eva_alarms wp wp_goals wanted
unfolding check_incomplete_items property_row_gaps proofread_finding_gaps
check_incomplete_items-IsComplete quote rte reload eva eva_alarms wp wp_goals wanted h =
    let (parsed, flags, unrequested, steps, rows, goals, findings) =
      seven-empty (ast_diagnostic_gaps reload []) (option_list (compile_flags_dropped_gap reload))
        (unrequested_analysis_gaps rte wp wanted)
        (step_failure_gaps quote reload eva eva_alarms wp wp_goals wanted)
        (rows_gaps wp_goals (unwrap_or (as_array eva_alarms) []))
        (wp_goal_gaps eva_alarms wp_goals).0
        (findings_gaps (wp_goal_gaps eva_alarms wp_goals).1 (proofread_findings wp)) h in
    let (eva_on, wp_on, rte_on) = unrequested_none rte wp wanted unrequested in
    let (eva_ran, wp_ran, drained) =
      steps_none quote reload eva eva_alarms wp wp_goals wanted eva_on wp_on steps in
    let quiet = rows_gaps-is_quiet wp_goals (unwrap_or (as_array eva_alarms) []) rows in
    record {
      parsed = ast_diagnostic_gaps-IsParsed reload parsed;
      flags =
          compile_flags_dropped_gap-keeps_flags reload
            (option_list-none (compile_flags_dropped_gap reload) flags);
      both = (eva_on, wp_on);
      checked = rte_on;
      eva_ran = eva_ran;
      wp_ran = wp_ran;
      drained = drained;
      rows = all_clean wp_goals (unwrap_or (as_array eva_alarms) []) quiet;
      goals = goals_established eva_alarms wp_goals quiet goals;
      closed =
          findings_gaps-closed (wp_goal_gaps eva_alarms wp_goals).1 (proofread_findings wp)
            findings;
    }
