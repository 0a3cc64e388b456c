-- ===== src/Coverage/Reason/Current.antt =====
-- What a covered row rests on.
use frama_c_mcp.Prelude.{
  String, ◌≡◌, true, false, Option, Option-cases, inl, inr, none, some, is_empty, arith,
}
use frama_c_mcp.Json.{Value, is_some}
use frama_c_mcp.Session.Data.{verified, FunctionVerificationState}
use frama_c_mcp.Coverage.Drift.{Files, SourceDrift, is_stale}
use frama_c_mcp.Coverage.Profile.{VerificationProfile, receipt_names_function}
use frama_c_mcp.Coverage.Reason.{
  LoadedProject, receipt_matches_project, is_narrowed, profile_reason, receipt_reason, row_reason,
}

-- A conclusion that is verified and not stale, whose receipt is about this function, is not known to be of another
-- project or of other sources, and was made over all of the function's goals.
pub record IsCurrentProof (host : Files) (digest : String) (entry : FunctionVerificationState)
    (verify_profile : Option (String × VerificationProfile)) (drift : SourceDrift)
    (loaded : Option LoadedProject) : Type 0 where
  pub receipt : Value
  pub filed : entry.proof_receipt ≡ some receipt
  pub is_verified : entry.status ≡ verified
  pub dependencies : is_empty entry.stale_dependencies ≡ true
  pub environment : is_some entry.stale_proof_environment ≡ false
  pub sources : is_stale drift ≡ false
  pub whole : is_narrowed receipt ≡ false
  pub names : receipt_names_function receipt entry.function ≡ true
  pub project : receipt_matches_project host receipt loaded ≡ true
  pub target : profile_reason digest entry verify_profile ≡ none

-- A conclusion that no reason rules out is verified and not stale, and its receipt names the function, is
-- of the loaded project if one is loaded, was not narrowed to some goals, and passes the tests of the profile.
pub row_reason-IsCurrentProof :
    (host : Files) (digest : String) (entry : FunctionVerificationState)
    (verify_profile : Option (String × VerificationProfile)) (drift : SourceDrift)
    (loaded : Option LoadedProject)
    → row_reason host digest entry verify_profile drift loaded ≡ none
    → IsCurrentProof host digest entry verify_profile drift loaded
unfolding row_reason receipt_reason
row_reason-IsCurrentProof host digest entry verify_profile drift loaded h =
    elim (Option-cases (profile_reason digest entry verify_profile)) [
      | inr (reason, eq) ↦ absurd (ground arith)
      | inl target ↦ elim (Option-cases entry.proof_receipt) [
        | inl eq ↦ absurd (ground arith)
        | inr (receipt, eq) ↦ record {
          receipt = receipt;
          filed = eq;
          is_verified = ground arith;
          dependencies = ground arith;
          environment = ground arith;
          sources = ground arith;
          whole = ground arith;
          names = ground arith;
          project = ground arith;
          target = target;
        }
      ]
    ]
