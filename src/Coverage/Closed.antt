-- ===== src/Coverage/Closed.antt =====
-- The pass ends, and what it leaves covered rests on nothing uncovered.
use frama_c_mcp.Prelude.{
  ℕ, zero, suc, ◌+◌, ◌<◌, String, ◌≡◌, ◌≢◌, refl, Bool, Bool-cases, inl, inr, true, ◌||◌,
  Option-cases, subst, none, some, List, [], ◌∷◌, ◌++◌, map, all, filter_by, is_empty,
  if◌then◌else◌, arith, length,
}
use frama_c_mcp.Json.{is_some}
use frama_c_mcp.Coverage.{
  Row, contains_name, uncovered_names, blocking, is_newly, newly_names, mark_row, propagate_rounds,
  propagate_unverified_callees,
}

-- how many rows are still covered
unfoldable pub covered_count : List Row → ℕ
covered_count [] = 0
covered_count (row ∷ rows) =
    let rest = covered_count rows in if is_some row.reason then rest else suc rest

-- a row that is covered has no callee among these names
unfoldable pub is_clear : List String → Row → Bool
is_clear names row = is_some row.reason || is_empty (blocking names row)

contains_name-append :
    (name : String) (ns bs : List String)
    → contains_name name (ns ++ bs) ≡ (contains_name name ns || contains_name name bs)
unfolding contains_name
contains_name-append name [] bs = refl
contains_name-append name (n ∷ ns) bs = ground (arith, contains_name-append name ns bs)

-- a round marks a row in the count for each name that it found
covered_count-mark_row :
    (uncovered : List String) (rows : List Row)
    → covered_count (map (mark_row uncovered) rows) + length (newly_names uncovered rows)
      ≡ covered_count rows
unfolding covered_count mark_row newly_names is_newly
covered_count-mark_row uncovered [] = refl
covered_count-mark_row uncovered (row ∷ rows) =
    ground (arith, covered_count-mark_row uncovered rows)

-- the names of the rows without evidence, after a round
uncovered_names-mark_row :
    (name : String) (uncovered : List String) (rows : List Row)
    → contains_name name (uncovered_names (map (mark_row uncovered) rows)) ≡ (
        contains_name name (newly_names uncovered rows)
        || contains_name name (uncovered_names rows))
unfolding contains_name uncovered_names mark_row newly_names is_newly
uncovered_names-mark_row name uncovered [] = refl
uncovered_names-mark_row name uncovered (row ∷ rows) =
    ground (arith, uncovered_names-mark_row name uncovered rows)

none_newly :
    (uncovered : List String) (rows : List Row)
    → is_empty (newly_names uncovered rows) ≡ true
    → all (is_clear uncovered) rows ≡ true
unfolding newly_names is_newly is_clear
none_newly uncovered [] h = refl
none_newly uncovered (row ∷ rows) h = ground (arith, none_newly uncovered rows)

-- Each round finds a covered row, so the loop ends when there is fuel for one round more than the
-- covered rows.
propagate_rounds-ends :
    (fuel : ℕ) (uncovered : List String) (rows : List Row)
    → covered_count rows < fuel
    → propagate_rounds fuel uncovered rows ≢ none
unfolding propagate_rounds
propagate_rounds-ends zero uncovered rows small = λ e. omega arith
propagate_rounds-ends (suc fuel) uncovered rows small =
    elim (Bool-cases (is_empty (newly_names uncovered rows))) [
      | inl done ↦ λ e. ground arith
      | inr more ↦
          let counted = covered_count-mark_row uncovered rows in
          let rest =
            propagate_rounds-ends fuel (newly_names uncovered rows ++ uncovered)
              (map (mark_row uncovered) rows) in
          λ e. ground arith
    ]

-- the names of the rows without evidence are among the set
Holds : List String → List Row → Type 0
Holds uncovered rows =
    (name : String)
    → contains_name name (uncovered_names rows) ≡ true
    → contains_name name uncovered ≡ true

Holds-mark_row :
    (uncovered : List String) (rows : List Row)
    → Holds uncovered rows
    → Holds (newly_names uncovered rows ++ uncovered) (map (mark_row uncovered) rows)
unfolding Holds
Holds-mark_row uncovered rows holds name there =
    let marked = uncovered_names-mark_row name uncovered rows in
    let joined = contains_name-append name (newly_names uncovered rows) uncovered in
    elim (Bool-cases (contains_name name (uncovered_names rows))) [
      | inl old ↦ let kept = holds name old in ground arith
      | inr new ↦ ground arith
    ]

fewer_block :
    (few many callees : List String)
    → ((name : String) → contains_name name few ≡ true → contains_name name many ≡ true)
    → is_empty (filter_by (λ callee. contains_name callee many) callees) ≡ true
    → is_empty (filter_by (λ callee. contains_name callee few) callees) ≡ true
fewer_block few many [] less h = refl
fewer_block few many (callee ∷ callees) less h = elim (Bool-cases (contains_name callee few)) [
  | inl yes_few ↦ let more = less callee yes_few in absurd (ground arith)
  | inr no_few ↦ ground (arith, fewer_block few many callees less)
]

is_clear-fewer :
    (few many : List String) (rows : List Row)
    → ((name : String) → contains_name name few ≡ true → contains_name name many ≡ true)
    → all (is_clear many) rows ≡ true
    → all (is_clear few) rows ≡ true
unfolding is_clear blocking
is_clear-fewer few many [] less h = refl
is_clear-fewer few many (row ∷ rows) less h =
    let now = fewer_block few many row.callees less in
    let rest = is_clear-fewer few many rows less in
    elim (Bool-cases (is_some row.reason)) [
      | inl marked ↦ ground arith
      | inr covered ↦ ground arith
    ]

propagate_rounds-clear :
    (fuel : ℕ) (uncovered : List String) (rows out : List Row)
    → Holds uncovered rows
    → propagate_rounds fuel uncovered rows ≡ some out
    → all (is_clear (uncovered_names out)) out ≡ true
unfolding propagate_rounds Holds
propagate_rounds-clear zero uncovered rows out holds eq = absurd (ground arith)
propagate_rounds-clear (suc fuel) uncovered rows out holds eq =
    elim (Bool-cases (is_empty (newly_names uncovered rows))) [
      | inl done ↦
          let same : rows ≡ out = ground arith in
          subst (λ r. all (is_clear (uncovered_names r)) r ≡ true) same
            (is_clear-fewer (uncovered_names rows) uncovered rows holds
              (none_newly uncovered rows done))
      | inr more ↦
          propagate_rounds-clear fuel (newly_names uncovered rows ++ uncovered)
            (map (mark_row uncovered) rows) out (Holds-mark_row uncovered rows holds) (ground arith)
    ]

-- With fuel for one round more than there are covered rows, the pass ends, and then no row that is left
-- covered has a callee among the functions whose rows are not.
pub propagate_unverified_callees_lem :
    (fuel : ℕ) (rows : List Row)
    → covered_count rows < fuel
    → (out : List Row) × (propagate_unverified_callees fuel rows ≡ some out)
      × (all (is_clear (uncovered_names out)) out ≡ true)
unfolding propagate_unverified_callees Holds
propagate_unverified_callees_lem fuel rows small =
    elim (Option-cases (propagate_unverified_callees fuel rows)) [
      | inl missing ↦ absurd (propagate_rounds-ends fuel (uncovered_names rows) rows small missing)
      | inr (out, eq) ↦ (
        out,
        eq,
        propagate_rounds-clear fuel (uncovered_names rows) rows out (λ name there. there) eq,
      )
    ]
