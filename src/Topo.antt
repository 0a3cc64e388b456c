-- ===== src/Topo.antt =====
-- The verification order (src/topo.rs, `flatten_levels_to_vo_scc`; the records are src/state.rs's). The
-- levels come from petgraph's condensation, so they are an argument.
pub mod Flat
pub mod Ready
use frama_c_mcp.Prelude.{
  ℕ, String, Bool, List, [], ◌∷◌, ◌++◌, any, filter_by, is_empty, ◌=ˢ◌, if◌then◌else◌,
}

pub record SccGroup : Type 0 where
  pub id : ℕ
  pub members : List String
  pub level : ℕ
  pub is_cycle : Bool

pub record Level : Type 0 where
  pub level : ℕ
  pub groups : List SccGroup

-- the set `defined` is a list
unfoldable pub has_member : String → List String → Bool
has_member name names = any (λ n. n =ˢ name) names

-- the inner loop, over the groups of one level
unfoldable pub flatten_groups : List String → ℕ → List SccGroup → List String × List SccGroup
unfolding has_member
flatten_groups defined level [] = ([], [])
flatten_groups defined level (group ∷ groups) =
    let rest = flatten_groups defined level groups in
    let members = filter_by (λ m. has_member m defined) group.members in
    if is_empty members then rest else (
      members ++ rest.0,
      record { id = group.id; members = members; level = level; is_cycle = group.is_cycle }
          ∷ rest.1,
    )

unfoldable pub flatten_levels_to_vo_scc : List Level → List String → List String × List SccGroup
unfolding flatten_groups
flatten_levels_to_vo_scc [] defined = ([], [])
flatten_levels_to_vo_scc (level ∷ levels) defined =
    let here = flatten_groups defined level.level level.groups in
    let rest = flatten_levels_to_vo_scc levels defined in (here.0 ++ rest.0, here.1 ++ rest.1)
