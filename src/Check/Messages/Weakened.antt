-- ===== src/Check/Messages/Weakened.antt =====
-- The entry of a memory model that gives up C semantics is that of no message.
use frama_c_mcp.Prelude.{
  ◌≡◌, refl, subst, ◌∙◌, String, Bool, Bool-cases, inl, inr, true, false, not, Option, Option-cases,
  none, some, List, [], ◌∷◌, ◌++◌, map, any, is_empty, ◌=ˢ◌, first_line, if◌then◌else◌, arith,
}
use frama_c_mcp.Json.{Value, get_str, is_text, find_field}
use frama_c_mcp.Check.Messages.{
  message_field, message_code, MessageGap, is_same_gap, record_message, message_gaps, gap_of,
  weakened_gap, wp_message_gaps, weakening_model_selectors,
}

-- the code of a weakened model
abbrev pub is_weakened : Value → Bool
is_weakened g = is_text (get_str g "code") "WP_WEAKENED_MODEL"

abbrev is_weak : MessageGap → Bool
is_weak g = g.code =ˢ "WP_WEAKENED_MODEL"

-- the code by what a message means, the first that applies
abbrev pub code_of : Bool → Bool → Bool → Bool → Option String
code_of a b c d =
    if a
    then some "WP_VERIFICATION_SKIPPED"
    else if b
    then some "WP_ANNOTATION_SKIPPED"
    else if c
    then some "WP_UNSOUND_ENCODING"
    else if d
    then some "GENERATED_CALLEE_SPEC"
    else none

-- None of the four codes of a message is that of a weakened model.
code_of_tests : (a b c d : Bool) → is_text (code_of a b c d) "WP_WEAKENED_MODEL" ≡ false
code_of_tests true b c d = refl
code_of_tests false true c d = refl
code_of_tests false false true d = refl
code_of_tests false false false true = refl
code_of_tests false false false false = refl

message_code-other : (message : Value) → is_text (message_code message) "WP_WEAKENED_MODEL" ≡ false
unfolding message_code
message_code-other message = code_of_tests _ _ _ _

record_message-other :
    (code : String) (message : Value) (gaps : List MessageGap)
    → (code =ˢ "WP_WEAKENED_MODEL") ≡ false
    → any is_weak gaps ≡ false
    → any is_weak (record_message code message gaps) ≡ false
unfolding record_message
record_message-other code message [] other h = rw other
record_message-other code message (g ∷ gaps) other h =
    elim (Bool-cases (is_same_gap code (first_line (message_field message "message")) g)) [
      | inl same ↦ ground arith
      | inr differ ↦ ground (arith, record_message-other code message gaps)
    ]

message_gaps-other :
    (gaps : List MessageGap) (messages : List Value)
    → any is_weak gaps ≡ false
    → any is_weak (message_gaps gaps messages) ≡ false
unfolding message_gaps
message_gaps-other gaps [] h = h
message_gaps-other gaps (message ∷ messages) h = elim (Option-cases (message_code message)) [
  | inl eq ↦ rw (eq, message_gaps) (message_gaps-other gaps messages h)
  | inr (code, eq) ↦
      let other : (code =ˢ "WP_WEAKENED_MODEL") ≡ false =
        subst (λ o. is_text o "WP_WEAKENED_MODEL" ≡ false) eq (message_code-other message) in
      rw (eq, message_gaps)
        (message_gaps-other (record_message code message gaps) messages
          (record_message-other code message gaps other h))
]

rendered_weak :
    (gaps : List MessageGap) (rest : List Value)
    → any is_weak gaps ≡ false
    → any is_weakened (map gap_of gaps ++ rest) ≡ any is_weakened rest
unfolding gap_of find_field
rendered_weak [] rest h = refl
rendered_weak (g ∷ gaps) rest h = ground (arith, rendered_weak gaps rest)

weakened_gap-is_weakened :
    (model : Option String)
    → any is_weakened (weakened_gap model) ≡ not (is_empty (weakening_model_selectors model))
unfolding weakened_gap find_field
weakened_gap-is_weakened model = elim (Bool-cases (is_empty (weakening_model_selectors model))) [
  | inl eq ↦ ground arith
  | inr eq ↦ ground arith
]

pub wp_message_gaps-is_weakened :
    (messages : List Value) (model : Option String)
    → any is_weakened (wp_message_gaps messages model)
      ≡ not (is_empty (weakening_model_selectors model))
unfolding wp_message_gaps
wp_message_gaps-is_weakened messages model =
    rendered_weak (message_gaps [] messages) (weakened_gap model)
      (message_gaps-other [] messages refl)
    ∙ weakened_gap-is_weakened model
