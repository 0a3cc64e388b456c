-- ===== src/Check/Target.antt =====
-- The verdict split by target (src/mcp/checkgaps.rs, `goal_target` and `established_by_target`), with what
-- it reads off WP's names of goals (src/mcp/wpclass.rs, and `wp_goal_identity` of src/mcp/server.rs).
pub mod Holds
use Prim.Native.String.{len, slice, find, ◌++◌ as append}
use frama_c_mcp.Prelude.{
  ℕ, ◌+◌, String, Bool, true, false, ◌&&◌, ◌||◌, not, Option, none, some, List, [], ◌∷◌, any,
  filter_by, length, is_empty, map, ◌=ˢ◌, ◌==◌, contains, ends_with, is_empty_text, lookup, put,
  if◌then◌else◌,
}
use frama_c_mcp.Json.{
  Value, boolean, number, obj, at, get, get_str, as_str, as_bool, as_array, and_then, or_else,
  unwrap_or, is_text,
}
use frama_c_mcp.Status.{own_status_is_proved}
use frama_c_mcp.Check.{is_true}

pub data Target : Type 0 where
  memory_safety termination functional : Target

unfoldable pub target_name : Target → String
target_name memory_safety = "memory_safety"
target_name termination = "termination"
target_name functional = "functional"

abbrev pub verification_targets : List Target
verification_targets = memory_safety ∷ termination ∷ functional ∷ []

abbrev pub same_target : Target → Target → Bool
same_target memory_safety memory_safety = true
same_target termination termination = true
same_target functional functional = true
same_target _ _ = false

unfoldable pub is_terminates_goal : String → Bool
is_terminates_goal name = ends_with name "_terminates" || contains name "_terminates_part"

unfoldable pub goal_target : String → Target
unfolding is_terminates_goal
goal_target wpo =
    if contains wpo "_rte_"
    then memory_safety
    else if is_terminates_goal wpo || contains wpo "_loop_variant" || contains wpo "_decreases"
    then termination
    else functional

abbrev wp_goal_identity : Value → Option String
wp_goal_identity goal = and_then (or_else (get goal "wpo_id") (get goal "wpo")) as_str

abbrev goal_scope_key : Value → String
goal_scope_key goal =
    unwrap_or
      (and_then (or_else (or_else (get goal "fct") (get goal "scope")) (get goal "function_marker"))
        as_str)
      ""

-- A marker, which begins with `#`, is no name.
abbrev pub goal_owner_name : Value → Option String
goal_owner_name goal =
    let owner = goal_scope_key goal in
    if not (is_empty_text owner) && not (slice owner 0 1 =ˢ "#") then some owner else none

-- the id after the owner's first place in it, with the underscore behind the owner
abbrev tail_after : String → String → Option String
tail_after id owner =
    let owner_part = append "_" (append owner "_") in
    if contains id owner_part
    then some (slice id (find id owner_part + len owner + 1) (len id))
    else none

unfoldable pub goal_id_after_owner : Value → Option String
goal_id_after_owner goal =
    and_then (wp_goal_identity goal)
      (λ id. some (unwrap_or (and_then (goal_owner_name goal) (λ owner. tail_after id owner)) id))

-- the target of a goal that is no smoke test and has an id
unfoldable pub place : Value → Option Target
place goal =
    if is_true (as_bool (at goal "smoke"))
    then none
    else and_then (goal_id_after_owner goal) (λ id. some (goal_target id))

-- the goals of a target
abbrev pub is_of : Target → Value → Bool
is_of t goal = elim (place goal) [ none ↦ false | some u ↦ same_target t u ]

-- the target of each placed goal by the goal's stable id; a later goal of an id replaces the earlier
unfoldable pub target_by_id : List (String × Target) → List Value → List (String × Target)
target_by_id known [] = known
target_by_id known (goal ∷ goals) =
    target_by_id
      (elim (place goal) [
        | none ↦ known
        | some t ↦ elim (as_str (at goal "stable_goal_id")) [
          | none ↦ known
          | some id ↦ put id t known
        ]
      ])
      goals

abbrev is_goal_level : Value → Bool
is_goal_level item =
    is_text (as_str (at item "code")) "GOAL_NOT_VALID"
    || is_text (as_str (at item "code")) "PROVER_TIMEOUT"

-- the target that an entry blocks alone, when its goal is known
unfoldable pub placed_at : List (String × Target) → Value → Option Target
placed_at known item =
    if is_goal_level item
    then and_then (as_str (at item "stable_goal_id")) (λ id. lookup id known)
    else none

unfoldable pub blocked_by : List (String × Target) → Value → List Target
blocked_by known item = elim (placed_at known item) [
  | none ↦ verification_targets
  | some t ↦ t ∷ []
]

abbrev pub is_blocked : List (String × Target) → List Value → Target → Bool
is_blocked known incomplete t = any (λ item. any (same_target t) (blocked_by known item)) incomplete

unfoldable pub target_entry : List Value → List Value → Target → Value
target_entry goals incomplete t =
    let mine = filter_by (is_of t) goals in
    let still_open = length (filter_by (λ goal. not (own_status_is_proved goal)) mine) in
    obj (
      ("goals", number (length mine))
      ∷ ("open", number still_open)
      ∷ (
        "holds",
        boolean (
            not (is_empty mine)
            && still_open == 0
            && not (is_blocked (target_by_id [] goals) incomplete t)),
      )
      ∷ [])

unfoldable pub established_by_target : Value → List Value → Value
established_by_target wp_goals incomplete = obj (
    map (λ t. (target_name t, target_entry (unwrap_or (as_array wp_goals) []) incomplete t))
      verification_targets)
