-- ===== src/Examples/Order.antt =====
-- Two levels, with a function that has no body.
use frama_c_mcp.Prelude.{false, ◌≡◌, ◌&&◌, List, [], ◌∷◌, refl}
use frama_c_mcp.Topo.{Level, has_member, flatten_groups, flatten_levels_to_vo_scc}
use frama_c_mcp.Topo.Flat.{all_members, in_levels, flatten_levels_to_vo_scc_lem}

abbrev levels : List Level
levels =
    record {
      level = 0;
      groups =
          record { id = 0; members = "malloc" ∷ []; level = 0; is_cycle = false }
          ∷ record { id = 1; members = "f" ∷ []; level = 0; is_cycle = false }
          ∷ [];
    }
    ∷ record {
      level = 1;
      groups = record { id = 2; members = "main" ∷ []; level = 1; is_cycle = false } ∷ [];
    }
    ∷ []

flatten_levels_to_vo_scc_test :
    (flatten_levels_to_vo_scc levels ("main" ∷ "f" ∷ [])).0 ≡ "f" ∷ "main" ∷ []
unfolding flatten_levels_to_vo_scc flatten_groups has_member
flatten_levels_to_vo_scc_test = refl

flatten_levels_to_vo_scc_lem_example :
    ((flatten_levels_to_vo_scc levels ("main" ∷ "f" ∷ [])).0
      ≡ all_members (flatten_levels_to_vo_scc levels ("main" ∷ "f" ∷ [])).1)
    × (has_member "malloc" (flatten_levels_to_vo_scc levels ("main" ∷ "f" ∷ [])).0
        ≡ (has_member "malloc" ("main" ∷ "f" ∷ []) && in_levels "malloc" levels))
flatten_levels_to_vo_scc_lem_example =
    flatten_levels_to_vo_scc_lem levels ("main" ∷ "f" ∷ []) "malloc"
