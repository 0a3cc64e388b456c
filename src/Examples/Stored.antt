-- ===== src/Examples/Stored.antt =====
-- A session with one verified function, under digests that are the same for all texts.
use frama_c_mcp.Prelude.{
  String, ◌≡◌, refl, sym, ◌∙◌, inl, inr, Option-cases, [], ◌∷◌, some, none, lookup, put,
  if◌then◌else◌, arith,
}
use frama_c_mcp.Json.{find_field, Value, null, string, obj, arr}
use frama_c_mcp.Status.{is_proved}
use frama_c_mcp.Receipt.{Digests, schema_of, receipt_shape, receipt_goal_is_progress}
use frama_c_mcp.Receipt.Evidence.{proof_receipt_evidence_error}
use frama_c_mcp.Receipt.Evidence.Facts.{IsEvidence, proof_receipt_evidence_error_lem}
use frama_c_mcp.Session.Data.{
  verified, FunctionVerificationState, FunctionConclusionUpdate, WpGoalSummary,
  empty_conclusion_static,
}
use frama_c_mcp.Session.Conclusions.{
  Conclusions, merged_entry, merge_fields, specs_hash, specs_hash_for_function,
  validate_verified_conclusion,
}
use frama_c_mcp.Session.Store.{refresh_dependencies, refresh_environments, store_conclusion}
use frama_c_mcp.Session.Store.Valid.{AllValid, store_conclusion-AllValid}
use frama_c_mcp.Session.Store.Current.{IsCurrent, store_conclusion-IsCurrent}
use frama_c_mcp.Session.Store.Verified.{HasProof}
use frama_c_mcp.Session.Store.Reached.{
  Reached, start, next, stored, Reached-callees_are_current, Reached-HasProof,
}
use frama_c_mcp.Session.Store.View.{view_of, view_store, store_conclusion-view_store}
use frama_c_mcp.Session.Receipts.{
  has_seen, remember_receipt, receipt_body, receipt_body-remember_receipt,
}

abbrev constant : Digests
constant = record { of_text = λ s. "0123456789abcdef"; of_json = λ v. "d" }

abbrev receipt : Value
receipt = obj (
    ("schema", string "frama-c-mcp.proof-receipt")
    ∷ (
      "subject",
      obj (
          ("tool", string "check")
          ∷ ("files", arr (obj (("path", string "a.c") ∷ ("sha256", string "f") ∷ []) ∷ []))
          ∷ []),
    )
    ∷ ("wp", obj (("functions", arr (string "f" ∷ [])) ∷ []))
    ∷ ("goals", arr (obj (("status", string "Valid") ∷ []) ∷ []))
    ∷ ("reported", obj (("verdict", string "proved") ∷ []))
    ∷ ("sha256", string "d")
    ∷ [])

evidence : proof_receipt_evidence_error constant receipt 1 "f" ≡ none
unfolding proof_receipt_evidence_error find_field schema_of receipt_shape receipt_goal_is_progress
    is_proved
evidence = refl

proof_receipt_evidence_error_lem_example : IsEvidence constant receipt 1 "f"
proof_receipt_evidence_error_lem_example =
    proof_receipt_evidence_error_lem constant receipt 1 "f" evidence

abbrev summary : WpGoalSummary
summary = record {
  total = 1;
  valid = 1;
  unknown = 0;
  timeout = 0;
  failed = 0;
  model = none;
  timeout_used = none;
  recorded_at_retry = none;
  failed_goal_labels = [];
  failed_source_asserts = [];
}

-- `f` calls `g`, whose contract is empty.
abbrev proved : FunctionVerificationState
proved = record (empty_conclusion_static "f") {
  status = verified;
  wp_summary = some summary;
  callees = "g" ∷ [];
  callee_spec_hashes = ("g", "d") ∷ [];
  proof_receipt = some receipt;
}

abbrev session : Conclusions
session = ("f", proved) ∷ []

abbrev update : FunctionConclusionUpdate
update = record {
  function = "g";
  status = none;
  specs = none;
  wp_summary = none;
  notes = some "n";
  callees = some [];
  proof_receipt = none;
  verify_profile = none;
  reproduce = none;
}

session-AllValid : AllValid constant session
unfolding AllValid validate_verified_conclusion proof_receipt_evidence_error lookup find_field
    schema_of receipt_shape receipt_goal_is_progress is_proved
session-AllValid = (refl, tt)

constant_hash : (m : Conclusions) (name : String) → specs_hash_for_function constant m name ≡ "d"
unfolding specs_hash_for_function specs_hash
constant_hash m name = elim (Option-cases (lookup name m)) [
  | inl eq ↦ rw (eq, specs_hash_for_function)
  | inr (e, eq) ↦ rw (eq, specs_hash_for_function)
]

session-IsCurrent : IsCurrent constant session
unfolding IsCurrent lookup
session-IsCurrent name callee differ e found hash eq =
    let entry : proved ≡ e = ground arith in
    let known : hash ≡ "d" = ground arith in inl (known ∙ sym (constant_hash session callee))

store_conclusion-AllValid_example : AllValid constant (store_conclusion constant update session).0
store_conclusion-AllValid_example =
    store_conclusion-AllValid constant update session session-AllValid

store_conclusion-IsCurrent_example : IsCurrent constant (store_conclusion constant update session).0
store_conclusion-IsCurrent_example =
    store_conclusion-IsCurrent constant update session session-IsCurrent

-- the call that stores the proof of `f`
abbrev proof_of_f : FunctionConclusionUpdate
proof_of_f = record {
  function = "f";
  status = some verified;
  specs = none;
  wp_summary = some summary;
  notes = none;
  callees = some ("g" ∷ []);
  proof_receipt = some receipt;
  verify_profile = none;
  reproduce = none;
}

-- the session behind it
abbrev behind : Conclusions
behind = (store_conclusion constant proof_of_f []).0

behind-Reached : Reached constant behind
behind-Reached = next start (stored proof_of_f [])

-- the entry that it stored
abbrev concluded : FunctionVerificationState
concluded = record proved { proof_env_hash = some "d" }

behind_test : lookup "f" behind ≡ some concluded
unfolding store_conclusion lookup put merged_entry merge_fields validate_verified_conclusion
    proof_receipt_evidence_error find_field schema_of receipt_shape receipt_goal_is_progress
    is_proved refresh_dependencies refresh_environments specs_hash_for_function specs_hash
behind_test = refl

Reached-callees_are_current_example :
    lookup "g" concluded.callee_spec_hashes ≡ some (specs_hash_for_function constant behind "g")
Reached-callees_are_current_example =
    Reached-callees_are_current constant behind behind-Reached "f" "g" concluded behind_test refl
      refl refl

Reached-HasProof_example : HasProof constant concluded
Reached-HasProof_example =
    Reached-HasProof constant behind behind-Reached "f" concluded behind_test refl

receipt_body-remember_receipt_example :
    receipt_body "d" (remember_receipt "d" receipt (("e", null) ∷ [])) ≡ (
      if has_seen "d" (("e", null) ∷ []) then receipt_body "d" (("e", null) ∷ []) else some receipt)
receipt_body-remember_receipt_example =
    receipt_body-remember_receipt "d" receipt (("e", null) ∷ []) refl

store_conclusion-view_store_example :
    view_of (store_conclusion constant update session).0 "f"
    ≡ view_store constant update (view_of session) "f"
store_conclusion-view_store_example = store_conclusion-view_store constant update session "f"
