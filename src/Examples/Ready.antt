-- ===== src/Examples/Ready.antt =====
-- A caller of two functions that call each other.
use frama_c_mcp.Receipt.{sort_texts}
use frama_c_mcp.Topo.Ready.{ready_func}
use frama_c_mcp.Topo.Ready.{insert_ready}
use frama_c_mcp.Topo.Ready.{is_cycle_of}
use frama_c_mcp.Topo.Ready.{component}
use frama_c_mcp.Topo.Ready.{is_settled}
use frama_c_mcp.Topo.Ready.{sort_ready}
use frama_c_mcp.Prelude.{put}
use frama_c_mcp.Topo.Ready.{put_members}
use frama_c_mcp.Topo.Ready.{scc_table}
use frama_c_mcp.Prelude.{lookup}
use frama_c_mcp.Topo.Ready.{ready_of}
use frama_c_mcp.Topo.Ready.{add_nodes}
use frama_c_mcp.Topo.Ready.{is_known}
use frama_c_mcp.Prelude.{String, ◌≡◌, refl, true, false, some, List, [], ◌∷◌, is_empty, all}
use frama_c_mcp.Topo.{has_member}
use frama_c_mcp.Topo.Ready.{Edge, Graph, build_graph, ReadyFunc, compute_ready_functions}
use frama_c_mcp.Topo.Ready.Layers.{is_layered, is_in_some}
use frama_c_mcp.Topo.Ready.Progress.{compute_ready_functions-progress}

abbrev vertices : List String
vertices = "main" ∷ "f" ∷ "g" ∷ []

abbrev edges : List Edge
edges = ("main", "f") ∷ ("f", "g") ∷ ("g", "f") ∷ ("f", "printf") ∷ []

abbrev components : Graph → List (List String)
components graph = ("g" ∷ "f" ∷ []) ∷ ("main" ∷ []) ∷ []

in_layers :
    is_layered
      (build_graph vertices edges).nodes
      (build_graph vertices edges).edges
      []
      (components (build_graph vertices edges))
    ≡ true
unfolding is_layered build_graph is_known has_member add_nodes
in_layers = refl

all_in :
    all (is_in_some (components (build_graph vertices edges))) (build_graph vertices edges).nodes
    ≡ true
unfolding build_graph add_nodes has_member
all_in = refl

one_open : has_member "main" ("f" ∷ "g" ∷ []) ≡ false
unfolding has_member
one_open = refl

is_vertex : has_member "main" vertices ≡ true
unfolding has_member
is_vertex = refl

compute_ready_functions-progress_example :
    (out : List ReadyFunc) × (compute_ready_functions components vertices edges ("f" ∷ "g" ∷ []) []
      ≡ some out)
    × (is_empty out ≡ false)
compute_ready_functions-progress_example =
    compute_ready_functions-progress components vertices edges ("f" ∷ "g" ∷ []) "main" in_layers
      all_in is_vertex one_open

both_of_a_cycle :
    compute_ready_functions components vertices edges [] []
    ≡ some (
        record { function = "f"; scc_id = some 0; is_cycle = true; scc_members = "f" ∷ "g" ∷ [] }
        ∷ record { function = "g"; scc_id = some 0; is_cycle = true; scc_members = "f" ∷ "g" ∷ [] }
        ∷ [])
unfolding compute_ready_functions ready_of has_member lookup scc_table put_members put sort_ready
    build_graph is_known add_nodes is_settled component is_cycle_of insert_ready ready_func
    sort_texts
both_of_a_cycle = refl
