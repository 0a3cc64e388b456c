-- ===== src/Check/Messages/Reported.antt =====
-- Every message that means skipped work is reported.
use frama_c_mcp.Prelude.{
  ◌≡◌, refl, sym, subst, String, Bool, Bool-cases, inl, inr, true, ◌&&◌, Option, Option-cases, none,
  some, List, [], ◌∷◌, ◌++◌, map, any, all, =ˢ_refl, first_line, arith,
}
use frama_c_mcp.Json.{Value, get_str, is_text, find_field}
use frama_c_mcp.Check.Messages.{
  message_field, message_code, MessageGap, is_same_gap, record_message, message_gaps, gap_of,
  weakened_gap, wp_message_gaps,
}

-- an entry with this code and this reason
abbrev pub is_entry : String → String → Value → Bool
is_entry code reason g = is_text (get_str g "code") code && is_text (get_str g "reason") reason

-- a message that has no code, or whose code and first line some entry has
abbrev pub is_coded : List Value → Value → Bool
is_coded gaps message = elim (message_code message) [
  | none ↦ true
  | some code ↦ any (is_entry code (first_line (message_field message "message"))) gaps
]

record_message-adds :
    (code : String) (message : Value) (gaps : List MessageGap)
    → any
        (is_same_gap code (first_line (message_field message "message")))
        (record_message code message gaps)
      ≡ true
unfolding record_message
record_message-adds code message [] =
    ground (arith, =ˢ_refl code, =ˢ_refl (first_line (message_field message "message")))
record_message-adds code message (g ∷ gaps) =
    elim (Bool-cases (is_same_gap code (first_line (message_field message "message")) g)) [
      | inl same ↦ ground arith
      | inr other ↦ ground (arith, record_message-adds code message gaps)
    ]

record_message-keeps :
    (code : String) (message : Value) (c r : String) (gaps : List MessageGap)
    → any (is_same_gap c r) gaps ≡ true
    → any (is_same_gap c r) (record_message code message gaps) ≡ true
unfolding record_message
record_message-keeps code message c r [] h = absurd (ground arith)
record_message-keeps code message c r (g ∷ gaps) h =
    elim (Bool-cases (is_same_gap code (first_line (message_field message "message")) g)) [
      | inl same ↦ ground arith
      | inr other ↦ elim (Bool-cases (is_same_gap c r g)) [
        | inl here ↦ ground arith
        | inr away ↦
            let rest = record_message-keeps code message c r gaps (ground arith) in ground arith
      ]
    ]

message_gaps-keeps :
    (c r : String) (gaps : List MessageGap) (messages : List Value)
    → any (is_same_gap c r) gaps ≡ true
    → any (is_same_gap c r) (message_gaps gaps messages) ≡ true
unfolding message_gaps
message_gaps-keeps c r gaps [] h = h
message_gaps-keeps c r gaps (message ∷ messages) h = elim (Option-cases (message_code message)) [
  | inl eq ↦ rw (eq, message_gaps) (message_gaps-keeps c r gaps messages h)
  | inr (code, eq) ↦
      rw (eq, message_gaps)
        (message_gaps-keeps c r (record_message code message gaps) messages
          (record_message-keeps code message c r gaps h))
]

-- the entry of a message among the gaps as they grow
abbrev is_noted : List MessageGap → Value → Bool
is_noted gaps message = elim (message_code message) [
  | none ↦ true
  | some code ↦ any (is_same_gap code (first_line (message_field message "message"))) gaps
]

passed_over :
    (gaps : List MessageGap) (message : Value) (messages : List Value)
    → message_code message ≡ none
    → message_gaps gaps (message ∷ messages) ≡ message_gaps gaps messages
unfolding message_gaps
passed_over gaps message messages eq = rw (eq, message_gaps)

taken_in :
    (gaps : List MessageGap) (message : Value) (messages : List Value) (code : String)
    → message_code message ≡ some code
    → message_gaps gaps (message ∷ messages)
      ≡ message_gaps (record_message code message gaps) messages
unfolding message_gaps
taken_in gaps message messages code eq = rw (eq, message_gaps)

message_gaps-is_noted :
    (gaps : List MessageGap) (messages : List Value)
    → all (is_noted (message_gaps gaps messages)) messages ≡ true
message_gaps-is_noted gaps [] = refl
message_gaps-is_noted gaps (message ∷ messages) = elim (Option-cases (message_code message)) [
  | inl eq ↦
      let rest = message_gaps-is_noted gaps messages in
      subst (λ g. all (is_noted g) (message ∷ messages) ≡ true)
        (sym (passed_over gaps message messages eq)) (ground arith)
  | inr (code, eq) ↦
      let grown = record_message code message gaps in
      let here =
        message_gaps-keeps code (first_line (message_field message "message")) grown messages
          (record_message-adds code message gaps) in
      let rest = message_gaps-is_noted grown messages in
      subst (λ g. all (is_noted g) (message ∷ messages) ≡ true)
        (sym (taken_in gaps message messages code eq)) (ground arith)
]

rendered :
    (c r : String) (gaps : List MessageGap) (rest : List Value)
    → any (is_same_gap c r) gaps ≡ true
    → any (is_entry c r) (map gap_of gaps ++ rest) ≡ true
unfolding gap_of find_field
rendered c r [] rest h = absurd (ground arith)
rendered c r (g ∷ gaps) rest h = elim (Bool-cases (is_same_gap c r g)) [
  | inl here ↦ ground arith
  | inr away ↦ let later = rendered c r gaps rest (ground arith) in ground arith
]

noted-is_coded :
    (gaps : List MessageGap) (rest messages : List Value)
    → all (is_noted gaps) messages ≡ true
    → all (is_coded (map gap_of gaps ++ rest)) messages ≡ true
noted-is_coded gaps rest [] h = refl
noted-is_coded gaps rest (message ∷ messages) h = elim (Option-cases (message_code message)) [
  | inl eq ↦ let later = noted-is_coded gaps rest messages (ground arith) in ground arith
  | inr (code, eq) ↦
      let here =
        rendered code (first_line (message_field message "message")) gaps rest (ground arith) in
      let later = noted-is_coded gaps rest messages (ground arith) in ground arith
]

-- Each message that has a code has an entry with that code and its first line.
pub wp_message_gaps-is_coded :
    (messages : List Value) (model : Option String)
    → all (is_coded (wp_message_gaps messages model)) messages ≡ true
unfolding wp_message_gaps
wp_message_gaps-is_coded messages model =
    noted-is_coded (message_gaps [] messages) (weakened_gap model) messages
      (message_gaps-is_noted [] messages)
