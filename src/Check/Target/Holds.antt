-- ===== src/Check/Target/Holds.antt =====
-- When a target of the split verdict holds.
use frama_c_mcp.Prelude.{
  ◌≡◌, refl, Bool, Bool-cases, true, false, ◌&&◌, ◌||◌, not, Option-cases, inl, inr, none, some,
  List, [], ◌∷◌, any, all, filter_by, length, is_empty, ◌==◌, String, arith,
}
use frama_c_mcp.Json.{Value, boolean, at, as_array, unwrap_or, find_field}
use frama_c_mcp.Status.{own_status_is_proved}
use frama_c_mcp.Check.Target.{
  Target, memory_safety, termination, functional, target_name, verification_targets, same_target,
  is_of, target_by_id, placed_at, blocked_by, is_blocked, target_entry, established_by_target,
}

module _ {A : Type 0} (p q : A → Bool) where
  not_empty : (xs : List A) → not (is_empty (filter_by p xs)) ≡ any p xs
  not_empty [] = refl
  not_empty (x ∷ xs) = ground (arith, not_empty xs)

  none_left :
      (xs : List A)
      → (length (filter_by (λ x. not (q x)) (filter_by p xs)) == 0) ≡ all (λ x. not (p x) || q x) xs
  none_left [] = refl
  none_left (x ∷ xs) = elim (Bool-cases (p x)) [
    | inl hp ↦ elim (Bool-cases (q x)) [
      | inl hq ↦ ground (arith, none_left xs)
      | inr hq ↦ ground arith
    ]
    | inr hp ↦ ground (arith, none_left xs)
  ]

-- an entry whose goal is known to be of another target
abbrev pub is_elsewhere : List (String × Target) → Target → Value → Bool
is_elsewhere known t item = elim (placed_at known item) [
  | none ↦ false
  | some u ↦ not (same_target t u)
]

in_all : (t : Target) → any (same_target t) verification_targets ≡ true
in_all memory_safety = refl
in_all termination = refl
in_all functional = refl

one_blocks :
    (known : List (String × Target)) (t : Target) (item : Value)
    → any (same_target t) (blocked_by known item) ≡ not (is_elsewhere known t item)
unfolding blocked_by
one_blocks known t item = elim (Option-cases (placed_at known item)) [
  | inl eq ↦ ground (arith, in_all t)
  | inr (u, eq) ↦ ground arith
]

unblocked :
    (known : List (String × Target)) (t : Target) (incomplete : List Value)
    → not (is_blocked known incomplete t) ≡ all (is_elsewhere known t) incomplete
unblocked known t [] = refl
unblocked known t (item ∷ rest) = ground (arith, one_blocks known t item, unblocked known t rest)

entry_of :
    (wp_goals : Value) (incomplete : List Value) (t : Target)
    → at (established_by_target wp_goals incomplete) (target_name t)
      ≡ target_entry (unwrap_or (as_array wp_goals) []) incomplete t
unfolding established_by_target target_name find_field
entry_of wp_goals incomplete memory_safety = refl
entry_of wp_goals incomplete termination = refl
entry_of wp_goals incomplete functional = refl

-- A target holds exactly when some goal is of it, every goal of it has a proved status of its own, and
-- every entry of the list of gaps names a goal that is known to be of another target.
pub established_by_target_lem :
    (wp_goals : Value) (incomplete : List Value) (t : Target)
    → let goals = unwrap_or (as_array wp_goals) [] in
      at (at (established_by_target wp_goals incomplete) (target_name t)) "holds"
      ≡ boolean (
          any (is_of t) goals
          && all (λ goal. not (is_of t goal) || own_status_is_proved goal) goals
          && all (is_elsewhere (target_by_id [] goals) t) incomplete)
unfolding target_entry find_field
established_by_target_lem wp_goals incomplete t =
    let goals = unwrap_or (as_array wp_goals) [] in
    rw (
      entry_of wp_goals incomplete t,
      not_empty (is_of t) (is_of t) goals,
      none_left (is_of t) own_status_is_proved goals,
      unblocked (target_by_id [] goals) t incomplete,
    )
