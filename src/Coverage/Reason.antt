-- ===== src/Coverage/Reason.antt =====
-- Why a conclusion is no current evidence about a target (src/mcp/coverage.rs, `row_reason`,
-- `receipt_matches_project` and `verification_status_name`).
pub mod Current
use Prim.Native.String.{slice, len}
use frama_c_mcp.Prelude.{
  String, Bool, true, false, ◌&&◌, not, Option, none, some, List, [], ◌∷◌, any, all, is_empty, map,
  leb, ◌=ˢ◌, if◌then◌else◌,
}
use frama_c_mcp.Json.{Value, pointer, is_null, is_some, is_some_and, is_text, unwrap_or}
use frama_c_mcp.Session.Data.{
  VerificationStatus, in_progress, verified, failed, unsound, blocked_on_callee,
  FunctionVerificationState,
}
use frama_c_mcp.Coverage.Drift.{Files, SourceDrift, is_stale}
use frama_c_mcp.Coverage.Profile.{
  VerificationProfile, profile_evidence_error, receipt_names_function, proved_over, has_load,
}

unfoldable pub verification_status_name : VerificationStatus → String
verification_status_name in_progress = "in_progress"
verification_status_name verified = "verified"
verification_status_name failed = "failed"
verification_status_name unsound = "unsound"
verification_status_name blocked_on_callee = "blocked_on_callee"

pub record LoadedProject : Type 0 where
  pub files : List String
  pub load : Value

abbrev scratch_prefix : String
scratch_prefix = "frama-c-check-"

-- A scratch copy goes by its bare name.
unfoldable pub receipt_source_path : Files → String → String
receipt_source_path host file =
    if is_some_and (host.parent_name file)
      (λ dir. slice dir 0 (len scratch_prefix) =ˢ scratch_prefix)
    then unwrap_or (host.file_name file) file
    else file

-- the sets have the same members
abbrev same_set : List String → List String → Bool
same_set ss ts = all (λ s. any (λ t. t =ˢ s) ts) ss && all (λ t. any (λ s. s =ˢ t) ss) ts

unfoldable pub receipt_matches_project : Files → Value → Option LoadedProject → Bool
unfolding receipt_source_path
receipt_matches_project host receipt none = true
receipt_matches_project host receipt (some loaded) =
    has_load receipt loaded.load
    && not (is_empty (proved_over receipt))
    && same_set (proved_over receipt) (map (receipt_source_path host) loaded.files)

abbrev pub is_narrowed : Value → Bool
is_narrowed receipt =
    is_some_and (pointer receipt ("wp" ∷ "prop" ∷ "effective" ∷ [])) (λ prop. not (is_null prop))

-- the tests that only a target's profile asks for
unfoldable pub profile_reason :
    String → FunctionVerificationState → Option (String × VerificationProfile) → Option String
profile_reason digest entry none = none
profile_reason digest entry (some (name, profile)) =
    if not (is_text entry.verify_profile name)
    then some "different_verify_profile"
    else if is_some (profile_evidence_error digest profile entry.function entry.proof_receipt)
    then some "profile_evidence_mismatch"
    else none

abbrev is_verified_status : VerificationStatus → Bool
is_verified_status verified = true
is_verified_status _ = false

-- the tests of a verified conclusion's receipt
unfoldable pub receipt_reason : FunctionVerificationState → SourceDrift → Option String
receipt_reason entry drift = elim entry.proof_receipt [
  | none ↦ some "missing_proof_receipt"
  | some receipt ↦
      if is_stale drift
      then some "stale_source"
      else if is_narrowed receipt
      then some "proved_under_a_goal_filter"
      else if receipt_names_function receipt entry.function
      then none
      else some "receipt_does_not_prove_function"
]

unfoldable pub row_reason :
    Files
    → String
    → FunctionVerificationState
    → Option (String × VerificationProfile)
    → SourceDrift
    → Option LoadedProject
    → Option String
row_reason host digest entry verify_profile drift loaded =
    elim (profile_reason digest entry verify_profile) [
      | some reason ↦ some reason
      | none ↦
          if is_some_and entry.proof_receipt
            (λ receipt. not (receipt_matches_project host receipt loaded))
          then some "different_project"
          else if not (is_empty entry.stale_dependencies)
          then some "stale_dependencies"
          else if is_some entry.stale_proof_environment
          then some "stale_proof_environment"
          else if not (is_verified_status entry.status)
          then some (verification_status_name entry.status)
          else receipt_reason entry drift
    ]
