-- ===== src/Topo/Ready/Layers.antt =====
-- The first component that is not done holds a function that can be verified.
use frama_c_mcp.Prelude.{
  ℕ, suc, ◌≡◌, refl, ◌∙◌, String, Bool, Bool-cases, inl, inr, true, false, ◌&&◌, ◌||◌, not, some,
  List, [], ◌∷◌, ◌++◌, any, all, ==_iff, ◌=ˢ◌, =ˢ_iff, =ˢ_refl, lookup, put, lookup-put, subst,
  if◌then◌else◌, arith,
}
use frama_c_mcp.Topo.{has_member}
use frama_c_mcp.Topo.Ready.{
  Edge, Component, contains_edge, is_cycle_of, Components, put_members, component, scc_table,
  is_settled, callees_of,
}

-- Components in an order in which every edge leads into its own component or an earlier one, no name is in
-- two of them, and every member is a node.
unfoldable pub is_layered : List String → List Edge → List String → List (List String) → Bool
is_layered nodes edges seen [] = true
is_layered nodes edges seen (scc ∷ sccs) =
    all (λ (e : Edge). not (has_member e.0 scc) || has_member e.1 scc || has_member e.1 seen) edges
    && all (λ n. not (has_member n seen) && has_member n nodes) scc
    && is_layered nodes edges (scc ++ seen) sccs

-- the names of the components
abbrev pub is_in_some : List (List String) → String → Bool
is_in_some sccs n = any (has_member n) sccs

pub lookup-put_members :
    (c : Component) (ns : List String) (table : Components) (n : String)
    → lookup n (put_members c ns table) ≡ (if has_member n ns then some c else lookup n table)
unfolding put_members has_member
lookup-put_members c [] table n = refl
lookup-put_members c (m ∷ ns) table n =
    ground (arith, lookup-put_members c ns (put m c table) n, lookup-put m n c table)

-- a name of no later component keeps its entry
scc_table-earlier :
    (edges : List Edge) (i : ℕ) (sccs : List (List String)) (table : Components) (n : String)
    → is_in_some sccs n ≡ false
    → lookup n (scc_table edges i sccs table) ≡ lookup n table
unfolding scc_table
scc_table-earlier edges i [] table n h = refl
scc_table-earlier edges i (scc ∷ sccs) table n h =
    scc_table-earlier edges (suc i) sccs (put_members (component edges i scc) scc table) n
      (ground arith)
    ∙ ground (arith, lookup-put_members (component edges i scc) scc table n)

-- a test of all edges holds of each of them
edge_holds :
    (q : Edge → Bool) (edges : List Edge) (a b : String)
    → all q edges ≡ true
    → contains_edge edges a b ≡ true
    → q (a, b) ≡ true
edge_holds q [] a b h there = absurd (ground arith)
edge_holds q ((c, d) ∷ edges) a b h there = elim (Bool-cases (c =ˢ a && d =ˢ b)) [
  | inl here ↦
      let first : c ≡ a = ground (arith, =ˢ_iff c a) in
      let second : d ≡ b = ground (arith, =ˢ_iff d b) in
      let held : q (c, d) ≡ true = ground arith in
      subst (λ x. q (x, b) ≡ true) first (subst (λ y. q (c, y) ≡ true) second held)
  | inr other ↦ edge_holds q edges a b (ground arith) (ground arith)
]

all_callees :
    (p : String → Bool) (edges : List Edge) (v : String)
    → ((w : String) → contains_edge edges v w ≡ true → p w ≡ true)
    → all p (callees_of edges v) ≡ true
all_callees p [] v h = refl
all_callees p ((c, d) ∷ edges) v h =
    let rest = all_callees p edges v (λ w there. h w (ground arith)) in
    elim (Bool-cases (c =ˢ v)) [
      | inl mine ↦ let here = h d (ground (arith, =ˢ_refl d)) in ground arith
      | inr other ↦ ground arith
    ]

-- a name that is not done, in a list that is not all done
open_member :
    (done ns : List String)
    → all (λ n. has_member n done) ns ≡ false
    → (v : String) × (has_member v ns ≡ true) × (has_member v done ≡ false)
unfolding has_member
open_member done [] h = absurd (ground arith)
open_member done (n ∷ ns) h = elim (Bool-cases (any (λ m. m =ˢ n) done)) [
  | inl finished ↦
      let (v, there, unfinished) = open_member done ns (ground arith) in
      (v, ground arith, unfinished)
  | inr unfinished ↦ (n, ground (arith, =ˢ_refl n), unfinished)
]

pub member_holds :
    (p : String → Bool) (ns : List String) (n : String)
    → all p ns ≡ true
    → has_member n ns ≡ true
    → p n ≡ true
unfolding has_member
member_holds p [] n h there = absurd (ground arith)
member_holds p (m ∷ ns) n h there = elim (Bool-cases (m =ˢ n)) [
  | inl same ↦ subst (λ x. p x ≡ true) ((=ˢ_iff m n).0 same) (ground arith)
  | inr other ↦ member_holds p ns n (ground arith) (ground arith)
]

has_member-append :
    (n : String) (ms ns : List String)
    → has_member n (ms ++ ns) ≡ (has_member n ms || has_member n ns)
unfolding has_member
has_member-append n [] ns = refl
has_member-append n (m ∷ ms) ns = ground (arith, has_member-append n ms ns)

all-append :
    (p : String → Bool) (ms ns : List String)
    → all p ms ≡ true
    → all p ns ≡ true
    → all p (ms ++ ns) ≡ true
all-append p [] ns h k = k
all-append p (m ∷ ms) ns h k = ground (arith, all-append p ms ns)

-- a name seen before is in no later component
seen_is_later :
    (nodes : List String) (edges : List Edge) (seen : List String) (sccs : List (List String))
    (n : String)
    → is_layered nodes edges seen sccs ≡ true
    → has_member n seen ≡ true
    → is_in_some sccs n ≡ false
unfolding is_layered
seen_is_later nodes edges seen [] n h there = refl
seen_is_later nodes edges seen (scc ∷ sccs) n h there =
    let later =
      seen_is_later nodes edges (scc ++ seen) sccs n (ground arith)
        (ground (arith, has_member-append n scc seen)) in
    elim (Bool-cases (has_member n scc)) [
      | inl here ↦
          let fresh =
            member_holds (λ m. not (has_member m seen) && has_member m nodes) scc n (ground arith)
              here in
          absurd (ground arith)
      | inr absent ↦ ground arith
    ]

-- a callee in the component of its caller makes the component a cycle
cycle_of_edge :
    (edges : List Edge) (scc : List String) (v w : String)
    → has_member v scc ≡ true
    → has_member w scc ≡ true
    → contains_edge edges v w ≡ true
    → is_cycle_of edges scc ≡ true
unfolding is_cycle_of has_member
cycle_of_edge edges [] v w hv hw there = absurd (ground arith)
cycle_of_edge edges (n ∷ []) v w hv hw there =
    let first : v ≡ n = ground (arith, =ˢ_iff n v) in
    let second : w ≡ n = ground (arith, =ˢ_iff n w) in
    subst (λ x. contains_edge edges x n ≡ true) first
      (subst (λ y. contains_edge edges v y ≡ true) second there)
cycle_of_edge edges (n ∷ m ∷ rest) v w hv hw there = refl

-- A name that can be verified: a node that is not done, with a component, and its callees settled.
unfoldable pub IsNext :
    List String → List Edge → List String → Components → String → Component → Type 0
IsNext nodes edges done table v c =
    (has_member v nodes ≡ true)
    × (has_member v done ≡ false)
    × (lookup v table ≡ some c)
    × (all (is_settled table done c) (callees_of edges v) ≡ true)

pub first_open :
    (nodes : List String) (edges : List Edge) (done : List String) (i : ℕ) (seen : List String)
    (sccs : List (List String)) (table : Components) (v0 : String)
    → is_layered nodes edges seen sccs ≡ true
    → all (λ n. has_member n done) seen ≡ true
    → is_in_some sccs v0 ≡ true
    → has_member v0 done ≡ false
    → (v : String) × (c : Component) × IsNext nodes edges done (scc_table edges i sccs table) v c
unfolding is_layered scc_table is_settled component IsNext
first_open nodes edges done i seen [] table v0 layered finished there unfinished =
    absurd (ground arith)
first_open nodes edges done i seen (scc ∷ sccs) table v0 layered finished there unfinished =
    elim (Bool-cases (all (λ n. has_member n done) scc)) [
      | inl all_done ↦
          let absent : has_member v0 scc ≡ false = elim (Bool-cases (has_member v0 scc)) [
            | inl here ↦
                let bad = member_holds (λ n. has_member n done) scc v0 all_done here in
                absurd (ground arith)
            | inr away ↦ away
          ] in
          first_open nodes edges done (suc i) (scc ++ seen) sccs
            (put_members (component edges i scc) scc table) v0 (ground arith)
            (all-append (λ n. has_member n done) scc seen all_done finished) (ground arith)
            unfinished
      | inr some_open ↦
          let (v, here, open_v) = open_member done scc some_open in
          let c = component edges i scc in
          let after = put_members c scc table in
          let found : (n : String)
              → has_member n scc ≡ true
              → lookup n (scc_table edges (suc i) sccs after) ≡ some c =
            λ n inside.
              scc_table-earlier edges (suc i) sccs after n (
                seen_is_later nodes edges (scc ++ seen) sccs n (ground arith)
                  (ground (arith, has_member-append n scc seen)))
              ∙ ground (arith, lookup-put_members c scc table n) in
          let node =
            member_holds (λ n. not (has_member n seen) && has_member n nodes) scc v (ground arith)
              here in
          (
            v,
            c,
            (
              ground arith,
              open_v,
              found v here,
              all_callees (is_settled (scc_table edges (suc i) sccs after) done c) edges v
                  (λ w edge.
                    let q =
                      edge_holds
                        (λ (e : Edge).
                          not (has_member e.0 scc) || has_member e.1 scc || has_member e.1 seen)
                        edges v w (ground arith) edge in
                    elim (Bool-cases (has_member w scc)) [
                      | inl inside ↦
                          let is_cycle = cycle_of_edge edges scc v w here inside edge in
                          rw (found w inside, is_cycle) (ground (arith, ==_iff i i))
                      | inr outside ↦
                          let d =
                            member_holds (λ n. has_member n done) seen w finished (ground arith) in
                          ground arith
                    ]),
            ),
          )
    ]
