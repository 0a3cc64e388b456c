-- ===== src/Coverage.antt =====
-- How a function without evidence takes its callers' coverage away (src/mcp/coverage.rs,
-- `propagate_unverified_callees`).
pub mod Closed
pub mod Report
pub mod Rows
pub mod Profile
pub mod Reason
pub mod Drift
use frama_c_mcp.Prelude.{
  ℕ, zero, suc, String, Bool, true, false, ◌||◌, Option, none, some, List, [], ◌∷◌, ◌++◌, map, any,
  filter_by, is_empty, ◌=ˢ◌, if◌then◌else◌,
}
use frama_c_mcp.Json.{Value, is_some}

pub record Row : Type 0 where
  pub function : String
  pub status : String
  pub reason : Option String
  pub receipt_sha256 : Option String
  pub changed_sources : List String
  pub changed_source_count : ℕ
  pub unchecked_sources : List String
  pub unnamed_sources : ℕ
  pub blocking_callees : List String
  pub callees : List String
  pub in_scope_receipt : Option Value

-- the set of the functions without evidence, as a list
unfoldable pub contains_name : String → List String → Bool
contains_name name names = any (λ n. n =ˢ name) names

unfoldable pub uncovered_names : List Row → List String
uncovered_names [] = []
uncovered_names (row ∷ rows) =
    let rest = uncovered_names rows in if is_some row.reason then row.function ∷ rest else rest

unfoldable pub blocking : List String → Row → List String
blocking uncovered row = filter_by (λ callee. contains_name callee uncovered) row.callees

-- a row that a round finds
unfoldable pub is_newly : List String → Row → Bool
unfolding blocking
is_newly uncovered row =
    if is_some row.reason || is_empty (blocking uncovered row) then false else true

unfoldable pub newly_names : List String → List Row → List String
newly_names uncovered [] = []
newly_names uncovered (row ∷ rows) =
    let rest = newly_names uncovered rows in
    if is_newly uncovered row then row.function ∷ rest else rest

unfoldable pub mark_row : List String → Row → Row
mark_row uncovered row =
    if is_newly uncovered row
    then record row { blocking_callees = blocking uncovered row; reason = some "unverified_callee" }
    else row

-- the `loop`; `none` is a loop that has not ended
unfoldable pub propagate_rounds : ℕ → List String → List Row → Option (List Row)
propagate_rounds zero uncovered rows = none
propagate_rounds (suc fuel) uncovered rows =
    let rest =
      propagate_rounds fuel (newly_names uncovered rows ++ uncovered)
        (map (mark_row uncovered) rows) in
    if is_empty (newly_names uncovered rows) then some rows else rest

unfoldable pub propagate_unverified_callees : ℕ → List Row → Option (List Row)
propagate_unverified_callees fuel rows = propagate_rounds fuel (uncovered_names rows) rows
