-- ===== src/Examples/Graph.antt =====
-- A call graph of two functions, one of whose edges leads nowhere.
use frama_c_mcp.Session.Caches.{resolve_in}
use frama_c_mcp.Prelude.{true, false, refl, ◌≡◌, [], ◌∷◌}
use frama_c_mcp.Session.Caches.{SessionState, callgraph_by_name}

abbrev graph : SessionState
graph = record {
  project_loaded = true;
  eva_completed = false;
  wp_completed = false;
  functions = [];
  globals = [];
  callgraph_edges =
      record { src = "#F1"; dst = "#F2"; kind = "both" }
      ∷ record { src = "#F1"; dst = "#F9"; kind = "both" }
      ∷ [];
  callgraph_vertices =
      record { name = "main"; declaration = "#F1" }
      ∷ record { name = "f"; declaration = "#F2" }
      ∷ [];
  conclusions = [];
  seen_receipts = [];
}

both_ends_are_known : (callgraph_by_name graph).1 ≡ ("main", "f") ∷ []
unfolding callgraph_by_name resolve_in
both_ends_are_known = refl
