-- ===== src/Wp/Triage/Replayed.antt =====
-- When a run measured none of the timeouts that it reports.
use frama_c_mcp.Prelude.{◌≤◌, ◌≡◌, Bool, ◌&&◌, ◌||◌, not, List, [], ◌∷◌, ltb, ◌==◌, any, all, arith}
use frama_c_mcp.Json.{Value}
use frama_c_mcp.Status.{own_status_is_timeout}
use frama_c_mcp.Wp.Triage.{
  RunMeasurement, measure_goal, measure_goals, every_timed_out_goal_was_replayed, run_measurement,
  is_cached,
}

-- a goal that did not time out, or whose verdict came from the cache
abbrev pub is_unmeasured : Value → Bool
is_unmeasured goal = not (own_status_is_timeout goal) || is_cached goal

measure_goals-counts :
    (m : RunMeasurement) (goals : List Value)
    → m.timed_out_replayed ≤ m.timed_out
    → every_timed_out_goal_was_replayed (measure_goals m goals)
      ≡ (ltb 0 m.timed_out || any own_status_is_timeout goals)
        && ((m.timed_out_replayed == m.timed_out) && all is_unmeasured goals)
unfolding measure_goals every_timed_out_goal_was_replayed measure_goal
measure_goals-counts m [] h = ground arith
measure_goals-counts m (goal ∷ goals) h =
    ground (arith, measure_goals-counts (measure_goal m goal) goals)

-- The timeouts of a run count as replayed exactly when some goal timed out and every goal that did came
-- from the cache, whatever the goals that did not time out.
pub run_measurement_lem :
    (goals : List Value)
    → every_timed_out_goal_was_replayed (run_measurement goals)
      ≡ (any own_status_is_timeout goals && all is_unmeasured goals)
unfolding run_measurement
run_measurement_lem goals = measure_goals-counts _ goals (omega arith)
