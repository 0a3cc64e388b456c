-- ===== src/Topo/Ready/Progress.antt =====
-- There is always a function to verify next.
use frama_c_mcp.Prelude.{
  ℕ, suc, ◌≡◌, refl, sym, ◌∙◌, String, Bool, Bool-cases, inl, inr, true, false, ◌||◌, Option-cases,
  some, List, [], ◌∷◌, any, all, is_empty, ◌=ˢ◌, =ˢ_iff, =ˢ_refl, lookup, subst, arith,
}
use frama_c_mcp.Json.{is_some}
use frama_c_mcp.Topo.{has_member}
use frama_c_mcp.Topo.Ready.{
  Edge, Graph, build_graph, add_nodes, Component, Components, put_members, component, scc_table,
  ReadyFunc, is_settled, callees_of, ready_func, ready_of, insert_ready, sort_ready,
  compute_ready_functions,
}
use frama_c_mcp.Topo.Ready.Layers.{
  IsNext, member_holds, lookup-put_members, first_open, is_layered, is_in_some,
}

table_covers :
    (edges : List Edge) (i : ℕ) (sccs : List (List String)) (table : Components) (n : String)
    → is_some (lookup n (scc_table edges i sccs table))
      ≡ (is_in_some sccs n || is_some (lookup n table))
unfolding scc_table
table_covers edges i [] table n = refl
table_covers edges i (scc ∷ sccs) table n = ground (
  arith,
  table_covers edges (suc i) sccs (put_members (component edges i scc) scc table) n,
  lookup-put_members (component edges i scc) scc table n,
)

has_member-add_nodes :
    (n : String) (nodes vs : List String)
    → has_member n (add_nodes nodes vs) ≡ (has_member n nodes || has_member n vs)
unfolding add_nodes has_member
has_member-add_nodes n nodes [] = ground arith
has_member-add_nodes n nodes (v ∷ vs) = elim (Bool-cases (any (λ m. m =ˢ v) nodes)) [
  | inl known ↦ elim (Bool-cases (v =ˢ n)) [
    | inl same ↦
        let here : v ≡ n = (=ˢ_iff v n).0 same in
        let there : any (λ m. m =ˢ n) nodes ≡ true =
          subst (λ x. any (λ m. m =ˢ x) nodes ≡ true) here known in
        ground (arith, has_member-add_nodes n nodes vs)
    | inr other ↦ ground (arith, has_member-add_nodes n nodes vs)
  ]
  | inr fresh ↦ ground (arith, has_member-add_nodes n (v ∷ nodes) vs)
]

-- Where every vertex has a component, the loop answers, and what it answers is not empty when some vertex is
-- next.
ready_of_answers :
    (table : Components) (edges : List Edge) (done vertices : List String)
    → all (λ v. is_some (lookup v table)) vertices ≡ true
    → (out : List ReadyFunc) × (ready_of table edges done [] vertices ≡ some out)
      × ((v : String) (c : Component)
          → has_member v vertices ≡ true
          → has_member v done ≡ false
          → lookup v table ≡ some c
          → all (is_settled table done c) (callees_of edges v) ≡ true
          → is_empty out ≡ false)
unfolding ready_of has_member
ready_of_answers table edges done [] covered = ([], refl, λ v c there. absurd (ground arith))
ready_of_answers table edges done (u ∷ vs) covered =
    let (rest, eq, next) = ready_of_answers table edges done vs (ground arith) in
    elim (Bool-cases (any (λ n. n =ˢ u) done)) [
      | inl finished ↦ (
        rest,
        ground arith,
        λ v c there unfinished found settled. elim (Bool-cases (u =ˢ v)) [
          | inl same ↦
              let bad : any (λ n. n =ˢ v) done ≡ true =
                subst (λ x. any (λ n. n =ˢ x) done ≡ true) ((=ˢ_iff u v).0 same) finished in
              absurd (ground arith)
          | inr other ↦ next v c (ground arith) unfinished found settled
        ],
      )
      | inr unfinished_u ↦ elim (Option-cases (lookup u table)) [
        | inl missing ↦ absurd (ground arith)
        | inr (d, found_u) ↦
            elim (Bool-cases (all (is_settled table done d) (callees_of edges u))) [
              | inl ready ↦
                  (ready_func u d ∷ rest, ground arith, λ v c there unfinished found settled. refl)
              | inr waiting ↦ (
                rest,
                ground arith,
                λ v c there unfinished found settled. elim (Bool-cases (u =ˢ v)) [
                  | inl same ↦
                      let it : u ≡ v = (=ˢ_iff u v).0 same in
                      let d_found : lookup v table ≡ some d =
                        subst (λ x. lookup x table ≡ some d) it found_u in
                      let one : d ≡ c = ground arith in
                      let bad : all (is_settled table done d) (callees_of edges v) ≡ false =
                        subst (λ x. all (is_settled table done d) (callees_of edges x) ≡ false) it
                          waiting in
                      absurd (ground arith)
                  | inr other ↦ next v c (ground arith) unfinished found settled
                ],
              )
            ]
      ]
    ]

is_empty-insert_ready :
    (r : ReadyFunc) (out : List ReadyFunc) → is_empty (insert_ready r out) ≡ false
unfolding insert_ready
is_empty-insert_ready r [] = refl
is_empty-insert_ready r (s ∷ out) = ground arith

is_empty-sort_ready : (out : List ReadyFunc) → is_empty (sort_ready out) ≡ is_empty out
unfolding sort_ready
is_empty-sort_ready [] = refl
is_empty-sort_ready (r ∷ out) = is_empty-insert_ready r (sort_ready out)

all_nodes :
    (p : String → Bool) (ns : List String)
    → ((n : String) → has_member n ns ≡ true → p n ≡ true)
    → all p ns ≡ true
unfolding has_member
all_nodes p [] h = refl
all_nodes p (n ∷ ns) h =
    let here = h n (ground (arith, =ˢ_refl n)) in
    let rest = all_nodes p ns (λ m there. h m (ground arith)) in ground arith

node_iff :
    (vertices : List String) (edges : List Edge) (n : String)
    → has_member n (build_graph vertices edges).nodes ≡ has_member n vertices
unfolding build_graph has_member
node_iff vertices edges n = has_member-add_nodes n [] vertices

sorted_answer :
    (tarjan_scc : Graph → List (List String)) (vertices : List String) (edges : List Edge)
    (done : List String) (out : List ReadyFunc)
    → ready_of
        (scc_table
          (build_graph vertices edges).edges
          0
          (tarjan_scc (build_graph vertices edges))
          [])
        (build_graph vertices edges).edges
        done
        []
        vertices
      ≡ some out
    → compute_ready_functions tarjan_scc vertices edges done [] ≡ some (sort_ready out)
unfolding compute_ready_functions
sorted_answer tarjan_scc vertices edges done out eq = rw (eq, compute_ready_functions)

-- When the components are in an order in which edges lead to the same or an earlier one, no name is in two,
-- and together they hold the nodes, and no function is in progress while some vertex is not done, the
-- search answers at least one function to verify next.
pub compute_ready_functions-progress :
    (tarjan_scc : Graph → List (List String)) (vertices : List String) (edges : List Edge)
    (done : List String) (v0 : String)
    → is_layered
        (build_graph vertices edges).nodes
        (build_graph vertices edges).edges
        []
        (tarjan_scc (build_graph vertices edges))
      ≡ true
    → all (is_in_some (tarjan_scc (build_graph vertices edges))) (build_graph vertices edges).nodes
      ≡ true
    → has_member v0 vertices ≡ true
    → has_member v0 done ≡ false
    → (out : List ReadyFunc) × (compute_ready_functions tarjan_scc vertices edges done []
        ≡ some out)
      × (is_empty out ≡ false)
unfolding IsNext
compute_ready_functions-progress tarjan_scc vertices edges done v0 layered covered there
      unfinished =
    let graph = build_graph vertices edges in
    let sccs = tarjan_scc graph in
    let table = scc_table graph.edges 0 sccs [] in
    let inside : (n : String) → has_member n vertices ≡ true → is_in_some sccs n ≡ true =
      λ n h. member_holds (is_in_some sccs) graph.nodes n covered (node_iff vertices edges n ∙ h) in
    let found =
      all_nodes (λ v. is_some (lookup v table)) vertices
        (λ n h. let k = inside n h in ground (arith, table_covers graph.edges 0 sccs [] n)) in
    let (out, eq, next) = ready_of_answers table graph.edges done vertices found in
    let (v, c, (node, open_v, at_v, settled)) =
      first_open graph.nodes graph.edges done 0 [] sccs [] v0 layered refl (inside v0 there)
        unfinished in
    (
      sort_ready out,
      sorted_answer tarjan_scc vertices edges done out eq,
      is_empty-sort_ready out
          ∙ next v c (sym (node_iff vertices edges v) ∙ node) open_v at_v settled,
    )
