-- ===== src/Examples/Covered.antt =====
-- A caller of a caller of a function without evidence.
use frama_c_mcp.Prelude.{String, true, ◌≡◌, Option, none, some, List, [], ◌∷◌, all, arith}
use frama_c_mcp.Coverage.{Row, uncovered_names, propagate_unverified_callees}
use frama_c_mcp.Coverage.Closed.{covered_count, is_clear, propagate_unverified_callees_lem}

abbrev row : String → List String → Option String → Row
row function callees reason = record {
  function = function;
  status = "in_progress";
  reason = reason;
  receipt_sha256 = none;
  changed_sources = [];
  changed_source_count = 0;
  unchecked_sources = [];
  unnamed_sources = 0;
  blocking_callees = [];
  callees = callees;
  in_scope_receipt = none;
}

abbrev rows : List Row
rows =
    row "main" ("f" ∷ []) none
    ∷ row "f" ("g" ∷ []) none
    ∷ row "g" [] (some "missing_proof_receipt")
    ∷ []

propagate_unverified_callees_lem_example :
    (out : List Row) × (propagate_unverified_callees 3 rows ≡ some out)
    × (all (is_clear (uncovered_names out)) out ≡ true)
unfolding covered_count
propagate_unverified_callees_lem_example = propagate_unverified_callees_lem 3 rows (omega arith)
