-- ===== src/Check/Messages/Shown.antt =====
-- Every message that means skipped work is reported, under its own code.
use frama_c_mcp.Prelude.{
  ◌≡◌, refl, String, Bool, true, false, ◌&&◌, ◌||◌, not, Option, none, some, List, [], ◌∷◌, any,
  all, is_empty, ◌=ˢ◌, contains, eq_ignore_case, first_line, arith,
}
use frama_c_mcp.Json.{Value}
use frama_c_mcp.Check.Messages.{
  message_field, message_code, wp_message_gaps, weakening_model_selectors,
}
use frama_c_mcp.Check.Messages.Reported.{is_entry, is_coded, wp_message_gaps-is_coded}
use frama_c_mcp.Check.Messages.Weakened.{code_of, is_weakened, wp_message_gaps-is_weakened}

abbrev says : Value → String → Bool
says message text = contains (message_field message "message") text

abbrev is_from : Value → String → Bool
is_from message plugin = message_field message "plugin" =ˢ plugin

-- WP gave up on a function.
abbrev is_verification_skipped : Value → Bool
is_verification_skipped message =
    is_from message "wp"
    && eq_ignore_case (message_field message "kind") "error"
    && says message "skipped verification"

-- WP left out an annotation.
abbrev is_annotation_skipped : Value → Bool
is_annotation_skipped message = is_from message "wp" && says message "not yet supported (skipped)"

-- WP encoded something that may not be sound.
abbrev is_encoding_unsound : Value → Bool
is_encoding_unsound message =
    is_from message "wp"
    && (says message "might be unsound" || says message "interpreted as reads nothing")

-- The kernel made up the contract of a callee.
abbrev is_callee_unknown : Value → Bool
is_callee_unknown message =
    is_from message "kernel"
    && message_field message "category" =ˢ "annot:missing-spec"
    && says message "Neither code nor specification for function"

abbrev pub is_skipped_work : Value → Bool
is_skipped_work message =
    is_verification_skipped message
    || is_annotation_skipped message
    || is_encoding_unsound message
    || is_callee_unknown message

-- An entry with the code of what the message means first, and with its first line.
abbrev pub is_reported : List Value → Value → Bool
is_reported gaps message =
    let has : String → Bool =
      λ code. any (is_entry code (first_line (message_field message "message"))) gaps in
    let a = is_verification_skipped message in
    let b = is_annotation_skipped message in
    let c = is_encoding_unsound message in
    (not a || has "WP_VERIFICATION_SKIPPED")
    && (not b || a || has "WP_ANNOTATION_SKIPPED")
    && (not c || a || b || has "WP_UNSOUND_ENCODING")
    && (not (is_callee_unknown message) || a || b || c || has "GENERATED_CALLEE_SPEC")

reported_by_tests :
    (a b c d : Bool) (has : String → Bool)
    → elim (code_of a b c d) as (λ x. Bool) [ none ↦ true | some code ↦ has code ] ≡ true
    → ((not a || has "WP_VERIFICATION_SKIPPED")
        && (not b || a || has "WP_ANNOTATION_SKIPPED")
        && (not c || a || b || has "WP_UNSOUND_ENCODING")
        && (not d || a || b || c || has "GENERATED_CALLEE_SPEC"))
      ≡ true
reported_by_tests true b c d has h = ground arith
reported_by_tests false true c d has h = ground arith
reported_by_tests false false true d has h = ground arith
reported_by_tests false false false true has h = ground arith
reported_by_tests false false false false has h = refl

coded-is_reported :
    (gaps : List Value) (message : Value)
    → is_coded gaps message ≡ true
    → is_reported gaps message ≡ true
unfolding message_code
coded-is_reported gaps message =
    reported_by_tests (is_verification_skipped message) (is_annotation_skipped message)
      (is_encoding_unsound message) (is_callee_unknown message)
      (λ code. any (is_entry code (first_line (message_field message "message"))) gaps)

all_reported :
    (gaps messages : List Value)
    → all (is_coded gaps) messages ≡ true
    → all (is_reported gaps) messages ≡ true
all_reported gaps [] h = refl
all_reported gaps (message ∷ messages) h =
    ground (arith, coded-is_reported gaps message, all_reported gaps messages)

-- Each message that WP or the kernel prints for work skipped, dropped or encoded unsoundly has an entry with
-- the code of the first thing that it means and with its first line; and there is an entry for the memory model
-- exactly when one of its selectors gives up C semantics.
pub wp_message_gaps-is_reported :
    (messages : List Value) (model : Option String)
    → (all (is_reported (wp_message_gaps messages model)) messages ≡ true)
      × (any is_weakened (wp_message_gaps messages model)
          ≡ not (is_empty (weakening_model_selectors model)))
wp_message_gaps-is_reported messages model = (
  all_reported (wp_message_gaps messages model) messages (wp_message_gaps-is_coded messages model),
  wp_message_gaps-is_weakened messages model,
)

quiet_by_tests :
    (a b c d : Bool) (x y z w : Bool)
    → x ≡ false
    → y ≡ false
    → z ≡ false
    → w ≡ false
    → ((not a || x) && (not b || a || y) && (not c || a || b || z) && (not d || a || b || c || w))
      ≡ true
    → (a || b || c || d) ≡ false
quiet_by_tests a b c d x y z w p q r t h = ground arith

-- No entry leaves no message of skipped work.
pub none_skipped :
    (messages : List Value)
    → all (is_reported []) messages ≡ true
    → any is_skipped_work messages ≡ false
none_skipped [] h = refl
none_skipped (message ∷ messages) h =
    let here : is_skipped_work message ≡ false =
      quiet_by_tests (is_verification_skipped message) (is_annotation_skipped message)
        (is_encoding_unsound message) (is_callee_unknown message) false false false false refl refl
        refl refl (ground arith) in
    let rest = none_skipped messages (ground arith) in rw here rest
