-- ===== src/Receipt/Evidence/Facts.antt =====
-- What an accepted receipt says (src/state.rs, `proof_receipt_evidence_error`).
use frama_c_mcp.Prelude.{
  ℕ, String, ◌≡◌, inl, inr, true, false, not, ◌%◌, ◌^◌, Option-cases, none, some, List, [], ◌∷◌,
  any, is_empty, length, =ˢ_iff, ==_iff, arith,
}
use frama_c_mcp.Json.{
  is_text, Value, object, Fields, get, get_str, as_str, as_array, as_object, and_then, is_some_and,
  is_null, pointer, without,
}
use frama_c_mcp.Receipt.{Digests, post_body_key, schema_of, receipt_shape, receipt_goal_is_progress}
use frama_c_mcp.Receipt.Evidence.{
  is_text, is_readable, pointer_str, check_functions, check_scope, check_verdict, check_goals,
  check_files, check_digest, proof_receipt_evidence_error,
}

-- the function is among those that WP ran over
RanOver : Value → String → Type 0
RanOver receipt function =
    (names : List Value) × (and_then (pointer receipt ("wp" ∷ "functions" ∷ [])) as_array
      ≡ some names)
    × (any (λ name. is_text (as_str name) function) names ≡ true)

-- the whole of the main project, not one property and not a sandbox
IsUnnarrowed : Value → Type 0
IsUnnarrowed receipt =
    (is_some_and (pointer receipt ("wp" ∷ "prop" ∷ "effective" ∷ [])) (λ prop. not (is_null prop))
      ≡ false)
    × (is_text (pointer_str receipt ("wp" ∷ "scope" ∷ [])) "sandbox" ≡ false)

-- the run was a check that said "proved"
SaysProved : Value → Type 0
SaysProved receipt =
    (is_text (pointer_str receipt ("subject" ∷ "tool" ∷ [])) "check" ≡ true)
    × (pointer_str receipt ("reported" ∷ "verdict" ∷ []) ≡ some "proved")

-- the goals: some, as many as the summary counts, and each one progress
HasGoals : Value → ℕ → Type 0
HasGoals receipt goal_total =
    (goals : List Value) × (and_then (get receipt "goals") as_array ≡ some goals)
    × (is_empty goals ≡ false)
    × (length goals % 2 ^ 32 ≡ goal_total)
    × (any (λ goal. not (receipt_goal_is_progress goal)) goals ≡ false)

HasFiles : Value → Type 0
HasFiles receipt =
    (files : List Value) × (and_then (pointer receipt ("subject" ∷ "files" ∷ [])) as_array
      ≡ some files)
    × (is_empty files ≡ false)
    × (any (λ file. not (is_readable file)) files ≡ false)

-- the stamped digest is the digest of the other fields
IsStamped : Digests → Value → Type 0
IsStamped h receipt =
    (fields : Fields) × (as_object receipt ≡ some fields)
    × (get_str receipt "sha256" ≡ some (h.of_json (some (object (without post_body_key fields)))))

-- all of it
pub record IsEvidence (h : Digests) (receipt : Value) (goal_total : ℕ) (function : String)
    : Type 0 where
  shape : schema_of h receipt ≡ receipt_shape h
  stamped : IsStamped h receipt
  files : HasFiles receipt
  goals : HasGoals receipt goal_total
  verdict : SaysProved receipt
  unnarrowed : IsUnnarrowed receipt
  ran_over : RanOver receipt function

module _ (h : Digests) (receipt : Value) (goal_total : ℕ) (function : String) where
  check_functions-RanOver : check_functions receipt function ≡ none → RanOver receipt function
  unfolding check_functions RanOver
  check_functions-RanOver eq =
      elim (Option-cases (and_then (pointer receipt ("wp" ∷ "functions" ∷ [])) as_array)) [
        | inl e ↦ absurd (grind arith)
        | inr (names, e) ↦ (names, e, grind arith)
      ]

  check_scope-IsUnnarrowed :
      check_scope receipt function ≡ none → IsUnnarrowed receipt × RanOver receipt function
  unfolding check_scope IsUnnarrowed
  check_scope-IsUnnarrowed eq =
      let ran : check_functions receipt function ≡ none = ground arith in
      ((ground arith, ground arith), check_functions-RanOver ran)

  check_verdict-SaysProved :
      check_verdict receipt function ≡ none
      → SaysProved receipt × IsUnnarrowed receipt × RanOver receipt function
  unfolding check_verdict SaysProved
  check_verdict-SaysProved eq =
      elim (Option-cases (pointer_str receipt ("reported" ∷ "verdict" ∷ []))) [
        | inl e ↦ absurd (grind arith)
        | inr (verdict, e) ↦
            let scope : check_scope receipt function ≡ none = grind arith in
            let (unnarrowed, ran) = check_scope-IsUnnarrowed scope in
            ((grind arith, grind (arith, =ˢ_iff verdict "proved")), unnarrowed, ran)
      ]

  check_goals-HasGoals :
      (goals : List Value)
      → and_then (get receipt "goals") as_array ≡ some goals
      → check_goals receipt goal_total function goals ≡ none
      → HasGoals receipt goal_total × check_verdict receipt function ≡ none
  unfolding check_goals HasGoals
  check_goals-HasGoals goals e eq = (
    (goals, e, grind arith, grind (arith, ==_iff (length goals % 2 ^ 32) goal_total), grind arith),
    grind arith,
  )

  check_files-HasFiles :
      check_files receipt goal_total function ≡ none
      → HasFiles receipt × HasGoals receipt goal_total × check_verdict receipt function ≡ none
  unfolding check_files HasFiles
  check_files-HasFiles eq =
      elim (Option-cases (and_then (pointer receipt ("subject" ∷ "files" ∷ [])) as_array)) [
        | inl e ↦ absurd (grind arith)
        | inr (files, e) ↦ elim (Option-cases (and_then (get receipt "goals") as_array)) [
          | inl missing ↦ absurd (grind arith)
          | inr (goals, found) ↦
              let rest : check_goals receipt goal_total function goals ≡ none = grind arith in
              let (has_goals, after) = check_goals-HasGoals goals found rest in
              ((files, e, grind arith, grind arith), has_goals, after)
        ]
      ]

  check_digest-IsStamped :
      check_digest h receipt goal_total function ≡ none
      → IsStamped h receipt × check_files receipt goal_total function ≡ none
  unfolding check_digest IsStamped
  check_digest-IsStamped eq = elim (Option-cases (get_str receipt "sha256")) [
    | inl e ↦ absurd (grind arith)
    | inr (stamped, e) ↦ elim (Option-cases (as_object receipt)) [
      | inl missing ↦ absurd (grind arith)
      | inr (fields, found) ↦
          let same = =ˢ_iff (h.of_json (some (object (without post_body_key fields)))) stamped in
          ((fields, found, grind (arith, same)), grind arith)
    ]
  ]

  -- A receipt that is not refused carries the build's own shape, is stamped with the digest of its
  -- other fields, names at least one source file and each with a path and a digest, has at least one
  -- goal, as many (as a u32) as the summary, each of them progress, and comes from a check whose
  -- verdict was "proved", over the main project, not narrowed to a property, and over this function.
  pub proof_receipt_evidence_error_lem :
      proof_receipt_evidence_error h receipt goal_total function ≡ none
      → IsEvidence h receipt goal_total function
  unfolding proof_receipt_evidence_error
  proof_receipt_evidence_error_lem eq =
      let digest : check_digest h receipt goal_total function ≡ none = ground arith in
      let (is_stamped, after_digest) = check_digest-IsStamped digest in
      let (has_files, has_goals, after_goals) = check_files-HasFiles after_digest in
      let (says_proved, is_unnarrowed, has_run) = check_verdict-SaysProved after_goals in
      record {
        shape = grind (arith, =ˢ_iff (schema_of h receipt) (receipt_shape h));
        stamped = is_stamped;
        files = has_files;
        goals = has_goals;
        verdict = says_proved;
        unnarrowed = is_unnarrowed;
        ran_over = has_run;
      }
