-- ===== src/Session/Store/Verified.antt =====
-- What a stored verdict of `Verified` says (src/state.rs).
use frama_c_mcp.Prelude.{
  String, ◌≡◌, Bool-cases, inl, inr, true, false, Option-cases, none, some, List, [], ◌∷◌, any,
  ◌=ˢ◌, =ˢ_iff, ◌≢◌, subst, lookup, arith,
}
use frama_c_mcp.Json.{Value, is_some}
use frama_c_mcp.Receipt.{Digests}
use frama_c_mcp.Receipt.Evidence.{proof_receipt_evidence_error}
use frama_c_mcp.Receipt.Evidence.Facts.{IsEvidence, proof_receipt_evidence_error_lem}
use frama_c_mcp.Session.Data.{FunctionVerificationState, WpGoalSummary}
use frama_c_mcp.Session.Conclusions.{
  Conclusions, validate_verified_conclusion, missing_callee, is_fully_valid, is_verified,
  specs_hash_for_function,
}
use frama_c_mcp.Session.Store.Valid.{AllValid}
use frama_c_mcp.Session.Store.Current.{IsCurrent, mentions}

missing_callee-is_some :
    (callee : String) (callees : List String) (hashes : List (String × String))
    → missing_callee callees hashes ≡ none
    → any (λ c. c =ˢ callee) callees ≡ true
    → is_some (lookup callee hashes) ≡ true
unfolding missing_callee
missing_callee-is_some callee [] hashes complete there = absurd (ground arith)
missing_callee-is_some callee (c ∷ callees) hashes complete there =
    grind (arith, =ˢ_iff c callee, missing_callee-is_some callee callees hashes)

module _ (h : Digests) where
  passes_of_lookup :
      (name : String) (e : FunctionVerificationState) (m : Conclusions)
      → AllValid h m
      → lookup name m ≡ some e
      → validate_verified_conclusion h e ≡ none
  unfolding AllValid lookup
  passes_of_lookup name e [] every eq = absurd (ground arith)
  passes_of_lookup name e ((j, d) ∷ m) (passes, every) eq = elim (Bool-cases (j =ˢ name)) [
    | inl it ↦
        let same : d ≡ e = ground arith in
        subst (λ x. validate_verified_conclusion h x ≡ none) same passes
    | inr another ↦ passes_of_lookup name e m every (ground arith)
  ]

  -- the fields that the check reads
  verified_facts :
      (e : FunctionVerificationState)
      → is_verified e.status ≡ true
      → validate_verified_conclusion h e ≡ none
      → (e.stale_dependencies ≡ [])
        × (missing_callee e.callees e.callee_spec_hashes ≡ none)
        × (e.stale_proof_environment ≡ none)
  unfolding validate_verified_conclusion
  verified_facts e yes_verified passes = (ground arith, ground arith, ground arith)

  -- In a session whose entries pass the check and are tracked, a verified function's recorded contract
  -- of each callee other than itself is the one that the session holds.
  pub verified_callees_are_current :
      (m : Conclusions)
      → AllValid h m
      → IsCurrent h m
      → (name callee : String) (e : FunctionVerificationState) → lookup name m ≡ some e
      → is_verified e.status ≡ true
      → any (λ c. c =ˢ callee) e.callees ≡ true
      → (name =ˢ callee) ≡ false
      → lookup callee e.callee_spec_hashes ≡ some (specs_hash_for_function h m callee)
  unfolding IsCurrent mentions
  verified_callees_are_current m every current name callee e found yes_verified there differ =
      let (fresh, complete, environment) =
        verified_facts e yes_verified (passes_of_lookup name e m every found) in
      let known = missing_callee-is_some callee e.callees e.callee_spec_hashes complete there in
      elim (Option-cases (lookup callee e.callee_spec_hashes)) [
        | inl eq ↦ absurd (ground arith)
        | inr (hash, eq) ↦ let tracked = current name callee differ e found hash eq in ground arith
      ]

  -- a summary of at least one goal, all of them valid, and a receipt that is evidence for it
  unfoldable pub HasProof : FunctionVerificationState → Type 0
  HasProof e =
      (summary : WpGoalSummary) × (receipt : Value) × (e.wp_summary ≡ some summary)
      × (e.proof_receipt ≡ some receipt)
      × (summary.total ≢ 0)
      × (summary.valid ≡ summary.total)
      × IsEvidence h receipt summary.total e.function

  -- In a session whose entries pass the check, a verified function has a summary of at least one goal,
  -- all of them valid, and a receipt that is evidence for that many goals of that function.
  pub verified-HasProof :
      (m : Conclusions)
      → AllValid h m
      → (name : String) (e : FunctionVerificationState) → lookup name m ≡ some e
      → is_verified e.status ≡ true
      → HasProof e
  unfolding HasProof validate_verified_conclusion is_fully_valid
  verified-HasProof m every name e found yes_verified =
      let passes = passes_of_lookup name e m every found in
      let (fresh, complete, environment) = verified_facts e yes_verified passes in
      elim (Option-cases e.wp_summary) [
        | inl missing ↦ absurd (ground arith)
        | inr (summary, has) ↦ elim (Option-cases e.proof_receipt) [
          | inl missing ↦ absurd (ground arith)
          | inr (receipt, given) ↦
              let evidence : proof_receipt_evidence_error h receipt summary.total e.function
                  ≡ none =
                ground arith in
              (
                summary,
                receipt,
                has,
                given,
                ground arith,
                ground arith,
                proof_receipt_evidence_error_lem h receipt summary.total e.function evidence,
              )
        ]
      ]
