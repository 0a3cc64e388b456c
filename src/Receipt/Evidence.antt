-- ===== src/Receipt/Evidence.antt =====
-- Why a receipt is not evidence for a conclusion (src/state.rs, `proof_receipt_evidence_error`).
pub mod Facts
use frama_c_mcp.Prelude.{
  ℕ, String, Bool, true, false, ◌&&◌, ◌||◌, not, ◌%◌, ◌^◌, Option, none, some, List, [], ◌∷◌, any,
  all, is_empty, length, ◌=ˢ◌, ◌==◌, filter_by, is_empty_text, if◌then◌else◌,
}
use frama_c_mcp.Json.{
  is_text, Value, object, Fields, get, get_str, as_str, as_array, as_object, and_then, is_some_and,
  is_null, pointer, without,
}
use frama_c_mcp.Receipt.{
  Digests, receipt_schema, post_body_key, schema_of, receipt_shape, receipt_goal_is_progress,
}

-- The refusals, one for each text of the source.
pub data Refusal : Type 0 where
  not_this_build missing_sha256 not_an_object sha256_mismatch no_source_files
        unreadable_source_files :
      Refusal
  missing_goals no_goals goal_count_mismatch goals_not_discharged not_from_check : Refusal
  verdict_not_proved : String → Refusal
  no_verdict narrowed_by_prop from_sandbox no_functions other_functions : Refusal

-- `is_none_or(str::is_empty)`
abbrev lacks_text : Value → String → Bool
lacks_text file key = elim (get_str file key) [ none ↦ true | some s ↦ is_empty_text s ]

abbrev pub is_readable : Value → Bool
is_readable file = not (lacks_text file "path" || lacks_text file "sha256")

abbrev pub pointer_str : Value → List String → Option String
pointer_str v path = and_then (pointer v path) as_str

-- the last part: the functions that WP ran over
check_functions : Value → String → Option Refusal
check_functions receipt function =
    elim (and_then (pointer receipt ("wp" ∷ "functions" ∷ [])) as_array) [
      | none ↦ some no_functions
      | some names ↦
          if any (λ name. is_text (as_str name) function) names then none else some other_functions
    ]

check_scope : Value → String → Option Refusal
check_scope receipt function =
    if is_some_and (pointer receipt ("wp" ∷ "prop" ∷ "effective" ∷ [])) (λ prop. not (is_null prop))
    then some narrowed_by_prop
    else if is_text (pointer_str receipt ("wp" ∷ "scope" ∷ [])) "sandbox"
    then some from_sandbox
    else check_functions receipt function

-- the tool, and the verdict that it reported
check_verdict : Value → String → Option Refusal
check_verdict receipt function =
    if not (is_text (pointer_str receipt ("subject" ∷ "tool" ∷ [])) "check")
    then some not_from_check
    else elim (pointer_str receipt ("reported" ∷ "verdict" ∷ [])) [
      | none ↦ some no_verdict
      | some verdict ↦
          if verdict =ˢ "proved"
          then check_scope receipt function
          else some (verdict_not_proved verdict)
    ]

-- the goals, once the list is read; a length is compared as a u32
check_goals : Value → ℕ → String → List Value → Option Refusal
check_goals receipt goal_total function goals =
    if is_empty goals
    then some no_goals
    else if not (length goals % 2 ^ 32 == goal_total)
    then some goal_count_mismatch
    else if any (λ goal. not (receipt_goal_is_progress goal)) goals
    then some goals_not_discharged
    else check_verdict receipt function

check_files : Value → ℕ → String → Option Refusal
check_files receipt goal_total function =
    elim (and_then (pointer receipt ("subject" ∷ "files" ∷ [])) as_array) [
      | none ↦ some no_source_files
      | some files ↦
          if is_empty files || any (λ file. not (is_readable file)) files
          then some unreadable_source_files
          else elim (and_then (get receipt "goals") as_array) [
            | none ↦ some missing_goals
            | some goals ↦ check_goals receipt goal_total function goals
          ]
    ]

-- the digest over everything but the digest itself
check_digest : Digests → Value → ℕ → String → Option Refusal
check_digest h receipt goal_total function = elim (get_str receipt "sha256") [
  | none ↦ some missing_sha256
  | some stamped ↦ elim (as_object receipt) [
    | none ↦ some not_an_object
    | some fields ↦
        if h.of_json (some (object (without post_body_key fields))) =ˢ stamped
        then check_files receipt goal_total function
        else some sha256_mismatch
  ]
]

-- The checks in the order of the source; `none` is no reason against the receipt.
unfoldable pub proof_receipt_evidence_error : Digests → Value → ℕ → String → Option Refusal
unfolding check_digest check_files check_goals check_verdict check_scope check_functions
proof_receipt_evidence_error h receipt goal_total function =
    if not (is_text (get_str receipt "schema") receipt_schema)
      || not (schema_of h receipt =ˢ receipt_shape h)
    then some not_this_build
    else check_digest h receipt goal_total function
