-- ===== src/Session/Data.antt =====
-- The records that a session keeps (src/state.rs). An integer of 32 bits is a ℕ, and what wraps or
-- saturates is written out; a hash map is an association list, whose order the code does not rely on.
use frama_c_mcp.Prelude.{ℕ, String, Bool, true, false, Option, none, List, []}
use frama_c_mcp.Json.{Value}

pub data VerificationStatus : Type 0 where
  in_progress verified failed unsound blocked_on_callee : VerificationStatus

pub data AnnotationSource : Type 0 where
  generated : AnnotationSource

pub record AnnotationEntry : Type 0 where
  pub hash_label : String
  pub user_label : Option String
  pub kind : String
  pub acsl : String
  pub stmt_id : Option Value  -- an i64, as its JSON number
  pub derived_from : String
  pub source : AnnotationSource
  pub purpose : String
  pub proof_target : Option String
  pub wp_status : Option String
  pub wp_time_ms : Option ℕ
  pub wp_prover : Option String

pub record FailedSourceAssert : Type 0 where
  pub stmt_id : ℕ
  pub acsl : String
  pub kind : String

pub record WpGoalSummary : Type 0 where
  pub total : ℕ
  pub valid : ℕ
  pub unknown : ℕ
  pub timeout : ℕ
  pub failed : ℕ
  pub model : Option String
  pub timeout_used : Option ℕ
  pub recorded_at_retry : Option ℕ
  pub failed_goal_labels : List String
  pub failed_source_asserts : List FailedSourceAssert

pub record StaleDependency : Type 0 where
  pub callee : String
  pub recorded_specs_hash : String
  pub current_specs_hash : String

pub record StaleProofEnvironment : Type 0 where
  pub recorded_env_hash : String
  pub current_env_hash : String

pub record FunctionVerificationState : Type 0 where
  pub function : String
  pub status : VerificationStatus
  pub specs : List AnnotationEntry
  pub wp_summary : Option WpGoalSummary
  pub notes : String
  pub callees : List String
  pub callee_spec_hashes : List (String × String)
  pub stale_dependencies : List StaleDependency
  pub proof_receipt : Option Value
  pub verify_profile : Option String
  pub reproduce : Option String
  pub proof_env_hash : Option String
  pub stale_proof_environment : Option StaleProofEnvironment
  pub ast_stmt_count : Option ℕ
  pub sandbox_clean : Bool
  pub annotation_count : ℕ
  pub sandbox_deleted : Bool

pub record FunctionConclusionUpdate : Type 0 where
  pub function : String
  pub status : Option VerificationStatus
  pub specs : Option (List AnnotationEntry)
  pub wp_summary : Option WpGoalSummary
  pub notes : Option String
  pub callees : Option (List String)
  pub proof_receipt : Option Value
  pub verify_profile : Option String
  pub reproduce : Option String

pub record ConclusionSummary : Type 0 where
  pub function : String
  pub status : VerificationStatus
  pub wp_summary : Option WpGoalSummary
  pub verified_with : Option Value

abbrev pub empty_conclusion_static : String → FunctionVerificationState
empty_conclusion_static function = record {
  function = function;
  status = in_progress;
  specs = [];
  wp_summary = none;
  notes = "";
  callees = [];
  callee_spec_hashes = [];
  stale_dependencies = [];
  proof_receipt = none;
  verify_profile = none;
  reproduce = none;
  proof_env_hash = none;
  stale_proof_environment = none;
  ast_stmt_count = none;
  sandbox_clean = true;
  annotation_count = 0;
  sandbox_deleted = false;
}
