-- ===== src/Examples/Measured.antt =====
-- A run with one proved goal, and one timeout that came from the cache.
use frama_c_mcp.Wp.Triage.{wp_timeout_triage}
use frama_c_mcp.Wp.Triage.{timed_out_triage}
use frama_c_mcp.Status.{consolidated_status}
use frama_c_mcp.Status.{status_is_timeout}
use frama_c_mcp.Status.{own_status}
use frama_c_mcp.Wp.Triage.{measure_goal}
use frama_c_mcp.Wp.Triage.{measure_goals}
use frama_c_mcp.Json.{find_field}
use frama_c_mcp.Prelude.{◌≡◌, refl, true, false, any, all, ◌&&◌, List, [], ◌∷◌}
use frama_c_mcp.Json.{Value, string, boolean, obj, at}
use frama_c_mcp.Status.{own_status_is_timeout}
use frama_c_mcp.Wp.Triage.{
  every_timed_out_goal_was_replayed, run_measurement, measurement_to_json,
  wp_timeout_triage_from_goal,
}
use frama_c_mcp.Wp.Triage.Replayed.{is_unmeasured, run_measurement_lem}

abbrev goals : List Value
goals =
    obj (("status", string "Valid") ∷ ("from_cache", boolean false) ∷ [])
    ∷ obj (("status", string "Timeout") ∷ ("from_cache", boolean true) ∷ [])
    ∷ []

run_measurement_lem_example :
    every_timed_out_goal_was_replayed (run_measurement goals)
    ≡ (any own_status_is_timeout goals && all is_unmeasured goals)
run_measurement_lem_example = run_measurement_lem goals

the_run_is_replayed :
    at (measurement_to_json (run_measurement goals)) "every_timed_out_goal_was_replayed"
    ≡ boolean true
unfolding measurement_to_json find_field every_timed_out_goal_was_replayed run_measurement
    measure_goals measure_goal own_status_is_timeout own_status status_is_timeout
the_run_is_replayed = refl

a_fresh_timeout_may_be_retried :
    at
      (wp_timeout_triage_from_goal
        (obj (("status", string "Timeout") ∷ ("from_cache", boolean false) ∷ [])))
      "retry_with_higher_prover_timeout"
    ≡ boolean true
unfolding wp_timeout_triage_from_goal status_is_timeout consolidated_status find_field
    timed_out_triage wp_timeout_triage
a_fresh_timeout_may_be_retried = refl
