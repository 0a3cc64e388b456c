-- ===== src/Session/Caches/Callgraph.antt =====
-- The call graph of a session (src/state.rs).
use frama_c_mcp.Prelude.{
  String, ◌≡◌, refl, Bool, Option-cases, inl, inr, true, ◌&&◌, some, List, [], ◌∷◌, map, any, all,
  filter_by, ◌=ˢ◌, =ˢ_iff, arith,
}
use frama_c_mcp.Session.Caches.{
  SessionState, CallEdge, CallVertex, get_callers, get_callees, resolve_in, edges_by_name,
  callgraph_by_name,
}

unfoldable pub has_name : String → List String → Bool
has_name name names = any (λ n. n =ˢ name) names

resolve_in-has_name :
    (decl_marker name : String) (vs : List CallVertex)
    → resolve_in decl_marker vs ≡ some name
    → has_name name (map (λ (v : CallVertex). v.name) vs) ≡ true
unfolding resolve_in has_name
resolve_in-has_name decl_marker name [] eq = absurd (ground arith)
resolve_in-has_name decl_marker name (v ∷ vs) eq =
    ground (arith, =ˢ_iff v.name name, resolve_in-has_name decl_marker name vs)

unfoldable pub ends_are_named : List String → List (String × String) → Bool
unfolding has_name
ends_are_named names edges =
    all (λ (e : String × String). has_name e.0 names && has_name e.1 names) edges

edges_by_name-named :
    (vs : List CallVertex) (es : List CallEdge)
    → ends_are_named (map (λ (v : CallVertex). v.name) vs) (edges_by_name vs es) ≡ true
unfolding edges_by_name ends_are_named
edges_by_name-named vs [] = refl
edges_by_name-named vs (e ∷ es) =
    let rest = edges_by_name-named vs es in
    elim (Option-cases (resolve_in e.src vs)) [
      | inl eq ↦ ground arith
      | inr (src, eq) ↦ elim (Option-cases (resolve_in e.dst vs)) [
        | inl none_eq ↦ ground arith
        | inr (dst, some_eq) ↦
            ground (arith, resolve_in-has_name e.src src vs, resolve_in-has_name e.dst dst vs)
      ]
    ]

-- In the call graph by name, both ends of every edge are names of vertices.
callgraph_by_name-ends :
    (s : SessionState) → ends_are_named (callgraph_by_name s).0 (callgraph_by_name s).1 ≡ true
unfolding callgraph_by_name
callgraph_by_name-ends s = edges_by_name-named s.callgraph_vertices s.callgraph_edges

-- the two filters of one list of edges
calls_both_ways :
    (a b : String) (es : List CallEdge)
    → has_name a (map (λ (e : CallEdge). e.src) (filter_by (λ e. e.dst =ˢ b) es))
      ≡ has_name b (map (λ (e : CallEdge). e.dst) (filter_by (λ e. e.src =ˢ a) es))
unfolding has_name
calls_both_ways a b [] = refl
calls_both_ways a b (e ∷ es) =
    ground (arith, =ˢ_iff e.src a, =ˢ_iff e.dst b, calls_both_ways a b es)

-- A marker is among the callers of another just where that one is among its callees.
get_callers-get_callees :
    (a b : String) (s : SessionState) → has_name a (get_callers b s) ≡ has_name b (get_callees a s)
unfolding get_callers get_callees
get_callers-get_callees a b s = calls_both_ways a b s.callgraph_edges
