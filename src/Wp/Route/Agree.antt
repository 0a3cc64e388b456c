-- ===== src/Wp/Route/Agree.antt =====
-- The verdict and the next action speak of the same fault.
use frama_c_mcp.Prelude.{
  ◌≡◌, refl, sym, ap, ◌∙◌, String, Bool, true, false, ◌||◌, not, Option, none, some, ◌∷◌, [], ◌=ˢ◌,
  =ˢ_iff, if◌then◌else◌,
}
use frama_c_mcp.Json.{find_field, Value, get_str, is_text, is_null}
use frama_c_mcp.Wp.Route.{
  Meaning, wp_failure_kind, runtime_check_suggestion, semantic_wp_verdict, meaning_of, next_tool_of,
  is_one_of,
}

abbrev is_backend : Meaning → Bool
is_backend meaning = meaning.kind =ˢ "backend_unavailable"

-- the categories of a fault of the setup
abbrev is_setup : String → Bool
is_setup category =
    is_one_of
      ("missing_prover" ∷ "missing_why3_config" ∷ "request_rejected" ∷ "internal_error" ∷ [])
      category

abbrev is_toolchain : String → Bool
is_toolchain failure_kind =
    is_one_of
      ("missing_prover" ∷ "missing_why3_config" ∷ "request_rejected" ∷ "frama_c_internal" ∷ [])
      failure_kind

neither :
    (b : Bool) (x y : Meaning)
    → is_backend x ≡ false
    → is_backend y ≡ false
    → is_backend (if b then x else y) ≡ false
neither true x y p q = p
neither false x y p q = q

first_only :
    (b : Bool) (x y : Meaning)
    → is_backend x ≡ true
    → is_backend y ≡ false
    → is_backend (if b then x else y) ≡ b
first_only true x y p q = p
first_only false x y p q = q

meaning-is_backend :
    (category : String) (suggestion : Value)
    → is_backend (meaning_of category suggestion) ≡ is_setup category
unfolding meaning_of
meaning-is_backend category suggestion = first_only (is_setup category) _ _ refl (
    neither (not (is_null suggestion)) _ _ refl (
      neither (category =ˢ "prover_unknown") _ _ refl (
        neither
          (is_one_of ("unsupported_predicate" ∷ "incomplete_behavior_partition" ∷ []) category) _ _
          refl refl)))

-- the tests of wp_failure_kind past the triage, where a timeout is no fault of the setup
kind_of_tests :
    (t i p w r : Bool)
    → (t ≡ true → (p || (w || (r || (i || false)))) ≡ false)
    → is_toolchain (
        if t
        then "prover_timeout"
        else if i
        then "frama_c_internal"
        else if p
        then "missing_prover"
        else if w
        then "missing_why3_config"
        else if r
        then "request_rejected"
        else "proof_obligation")
      ≡ (p || (w || (r || (i || false))))
kind_of_tests true i p w r h = sym (h refl)
kind_of_tests false true true w r h = refl
kind_of_tests false true false true r h = refl
kind_of_tests false true false false true h = refl
kind_of_tests false true false false false h = refl
kind_of_tests false false true w r h = refl
kind_of_tests false false false true r h = refl
kind_of_tests false false false false true h = refl
kind_of_tests false false false false false h = refl

timeout_is_no_setup :
    (category : String) → (category =ˢ "timeout") ≡ true → is_setup category ≡ false
timeout_is_no_setup category p = ap is_setup ((=ˢ_iff category "timeout").0 p)

kind-is_toolchain :
    (category : String) → is_toolchain (wp_failure_kind category "none") ≡ is_setup category
unfolding wp_failure_kind
kind-is_toolchain category =
    kind_of_tests (category =ˢ "timeout") (category =ˢ "internal_error")
      (category =ˢ "missing_prover") (category =ˢ "missing_why3_config")
      (category =ˢ "request_rejected") (timeout_is_no_setup category)

abbrev pub is_self_check : Value → Bool
is_self_check action = is_text (get_str action "tool") "self_check"

only_first :
    (b : Bool) (x y : Value)
    → is_self_check x ≡ true
    → is_self_check y ≡ false
    → is_self_check (if b then x else y) ≡ b
only_first true x y p q = p
only_first false x y p q = q

tool-is_self_check :
    (failure_kind reason : String) (function : Option String)
    → is_self_check (next_tool_of failure_kind function reason) ≡ is_toolchain failure_kind
unfolding next_tool_of find_field
tool-is_self_check failure_kind reason none = only_first (is_toolchain failure_kind) _ _ refl refl
tool-is_self_check failure_kind reason (some f) =
    only_first (is_toolchain failure_kind) _ _ refl refl

-- Of a goal that no triage explains, the verdict is that the backend is unavailable exactly when the next
-- action is the check of the setup.
pub semantic_wp_verdict_lem :
    (category goal_kind reason : String) (function : Option String)
    → is_text
        (get_str
          (semantic_wp_verdict category (runtime_check_suggestion category goal_kind))
          "kind")
        "backend_unavailable"
      ≡ is_self_check (next_tool_of (wp_failure_kind category "none") function reason)
unfolding semantic_wp_verdict find_field
semantic_wp_verdict_lem category goal_kind reason function =
    meaning-is_backend category (runtime_check_suggestion category goal_kind)
    ∙ sym (kind-is_toolchain category)
    ∙ sym (tool-is_self_check (wp_failure_kind category "none") reason function)
