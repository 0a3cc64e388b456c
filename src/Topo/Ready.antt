-- ===== src/Topo/Ready.antt =====
-- The functions that can be verified next (src/topo.rs, `build_graph` and `compute_ready_functions`). The
-- graph is its names and its edges; its strongly connected components are petgraph's, so they are an argument.
pub mod Layers
pub mod Progress
use Prim.Native.Nat.{Ordering}
use Prim.Native.String.{compare}
use frama_c_mcp.Prelude.{
  ℕ, zero, suc, ◌%◌, ◌^◌, String, Bool, true, false, ◌&&◌, ◌||◌, not, Option, none, some, List, [],
  ◌∷◌, any, all, filter_by, length, leb, ◌==◌, ◌=ˢ◌, lookup, put, if◌then◌else◌,
}
use frama_c_mcp.Receipt.{sort_texts}
use frama_c_mcp.Topo.{has_member}

abbrev pub Edge : Type 0
Edge = String × String

pub record Graph : Type 0 where
  pub nodes : List String
  pub edges : List Edge

-- a node for each name, once
unfoldable pub add_nodes : List String → List String → List String
add_nodes nodes [] = nodes
add_nodes nodes (v ∷ vs) = add_nodes (if has_member v nodes then nodes else v ∷ nodes) vs

-- an edge between names that are nodes; the others are dropped
unfoldable pub is_known : List String → Edge → Bool
is_known nodes (caller, callee) = has_member caller nodes && has_member callee nodes

unfoldable pub build_graph : List String → List Edge → Graph
build_graph vertices edges =
    let nodes = add_nodes [] vertices in
    record { nodes = nodes; edges = filter_by (is_known nodes) edges }

-- A component: its place, its sorted members, and whether it is a cycle.
pub record Component : Type 0 where
  pub index : ℕ
  pub members : List String
  pub is_cycle : Bool

abbrev pub contains_edge : List Edge → String → String → Bool
contains_edge edges a b = any (λ (e : Edge). e.0 =ˢ a && e.1 =ˢ b) edges

unfoldable pub is_cycle_of : List Edge → List String → Bool
is_cycle_of edges [] = false
is_cycle_of edges (n ∷ []) = contains_edge edges n n
is_cycle_of edges (n ∷ m ∷ rest) = true

-- `scc_of`, with what the two vectors hold at the component's place
abbrev pub Components : Type 0
Components = List (String × Component)

unfoldable pub put_members : Component → List String → Components → Components
put_members c [] table = table
put_members c (n ∷ ns) table = put_members c ns (put n c table)

unfoldable pub component : List Edge → ℕ → List String → Component
component edges i scc = record {
  index = i;
  members = sort_texts scc;
  is_cycle = is_cycle_of edges scc;
}

unfoldable pub scc_table : List Edge → ℕ → List (List String) → Components → Components
scc_table edges i [] table = table
scc_table edges i (scc ∷ sccs) table =
    scc_table edges (suc i) sccs (put_members (component edges i scc) scc table)

pub record ReadyFunc : Type 0 where
  pub function : String
  pub scc_id : Option ℕ
  pub is_cycle : Bool
  pub scc_members : List String

-- a callee in the same cycle, or done
unfoldable pub is_settled : Components → List String → Component → String → Bool
is_settled table done c callee =
    (elim (lookup callee table) [ none ↦ false | some d ↦ d.index == c.index ]) && c.is_cycle
    || has_member callee done

abbrev pub callees_of : List Edge → String → List String
callees_of [] v = []
callees_of ((caller, callee) ∷ edges) v =
    let rest = callees_of edges v in if caller =ˢ v then callee ∷ rest else rest

unfoldable pub ready_func : String → Component → ReadyFunc
ready_func v c = record {
  function = v;
  scc_id = if c.is_cycle then some (c.index % 2 ^ 32) else none;
  is_cycle = c.is_cycle;
  scc_members = if c.is_cycle then c.members else v ∷ [];
}

abbrev is_taken : List String → List String → String → Bool
is_taken done in_progress v = has_member v done || has_member v in_progress

-- The loop over the vertices; `none` is the panic at a name without a component.
unfoldable pub ready_of :
    Components → List Edge → List String → List String → List String → Option (List ReadyFunc)
ready_of table edges done in_progress [] = some []
ready_of table edges done in_progress (v ∷ vs) =
    let rest = ready_of table edges done in_progress vs in
    if is_taken done in_progress v then rest else elim (lookup v table) [
      | none ↦ none
      | some c ↦ elim rest [
        | none ↦ none
        | some out ↦ some (
            if all (is_settled table done c) (callees_of edges v)
            then ready_func v c ∷ out
            else out)
      ]
    ]

unfoldable pub insert_ready : ReadyFunc → List ReadyFunc → List ReadyFunc
insert_ready r [] = r ∷ []
insert_ready r (s ∷ out) =
    let rest = insert_ready r out in
    elim (compare r.function s.function) [ Ordering.gt ↦ s ∷ rest | _ ↦ r ∷ s ∷ out ]

-- `sort_by` the name, which keeps the order of equal names
unfoldable pub sort_ready : List ReadyFunc → List ReadyFunc
sort_ready [] = []
sort_ready (r ∷ out) = insert_ready r (sort_ready out)

unfoldable pub compute_ready_functions :
    (Graph → List (List String))
    → List String
    → List Edge
    → List String
    → List String
    → Option (List ReadyFunc)
compute_ready_functions tarjan_scc vertices edges done in_progress =
    let graph = build_graph vertices edges in
    elim (ready_of (scc_table graph.edges 0 (tarjan_scc graph) []) graph.edges done in_progress
      vertices) [ none ↦ none | some out ↦ some (sort_ready out) ]
