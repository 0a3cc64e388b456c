-- ===== src/Check/Gates/Backend.antt =====
-- When the backend of WP left a goal without a verdict.
use frama_c_mcp.Prelude.{
  ◌≤◌, ◌≡◌, refl, Bool, Bool-cases, inl, inr, false, ◌&&◌, Option, List, [], ◌∷◌, any, lower, ◌==◌,
  String, ==_iff, arith,
}
use frama_c_mcp.Json.{Value, as_array, unwrap_or}
use frama_c_mcp.Check.Messages.{message_field}
use frama_c_mcp.Check.Gates.{
  why3_aborted, Scan, no_scan, scan_message, scan_messages, wp_backend_diagnosis, is_unjudged,
  wp_backend_anomaly_left_goal_unjudged,
}

-- Why3 aborted, says the message.
abbrev pub is_abort : Value → Bool
is_abort message = why3_aborted (lower (message_field message "message"))

scan_messages-grows :
    (scan : Scan) (messages : List Value)
    → scan.anomaly_count ≤ (scan_messages scan messages).anomaly_count
unfolding scan_messages scan_message
scan_messages-grows scan [] = omega arith
scan_messages-grows scan (message ∷ messages) =
    let rest = scan_messages-grows (scan_message scan message) messages in
    elim (Bool-cases (is_abort message)) [ inl eq ↦ ground arith | inr eq ↦ ground arith ]

no_abort :
    (scan : Scan) (messages : List Value)
    → (scan_messages scan messages).anomaly_count ≡ 0
    → any is_abort messages ≡ false
unfolding scan_messages scan_message
no_abort scan [] h = refl
no_abort scan (message ∷ messages) h = elim (Bool-cases (is_abort message)) [
  | inl eq ↦
      let grown = scan_messages-grows (scan_message scan message) messages in absurd (ground arith)
  | inr eq ↦ let rest = no_abort (scan_message scan message) messages h in rw eq rest
]

-- A run that left no goal unjudged met no abort, or its goals all have a verdict.
pub left_goal_unjudged-none :
    (messages : List Value) (model : Option String) (goals : Value)
    → wp_backend_anomaly_left_goal_unjudged (wp_backend_diagnosis messages model) goals ≡ false
    → (any is_abort messages && any is_unjudged (unwrap_or (as_array goals) [])) ≡ false
unfolding wp_backend_diagnosis wp_backend_anomaly_left_goal_unjudged
left_goal_unjudged-none messages model goals h =
    elim (Bool-cases ((scan_messages no_scan messages).anomaly_count == 0)) [
      | inl eq ↦
          let none_met : any is_abort messages ≡ false =
            no_abort no_scan messages
              ((==_iff (scan_messages no_scan messages).anomaly_count 0).0 eq) in
          rw none_met
      | inr eq ↦ ground arith
    ]
