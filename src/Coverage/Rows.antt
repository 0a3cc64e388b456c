-- ===== src/Coverage/Rows.antt =====
-- The rows of a coverage report and the receipts behind them (src/mcp/coverage.rs, `Row::not_started` and
-- the first half of `proof_coverage_report`).
use Prim.Native.Nat.{Ordering}
use Prim.Native.String.{◌++◌ as append, compare}
use frama_c_mcp.Prelude.{
  String, Bool, ◌&&◌, not, Option, none, some, List, [], ◌∷◌, any, length, ◌=ˢ◌, lookup,
  if◌then◌else◌,
}
use frama_c_mcp.Json.{Value, get_str, is_text, and_then}
use frama_c_mcp.Receipt.{sort_texts}
use frama_c_mcp.Session.Data.{FunctionVerificationState}
use frama_c_mcp.Coverage.{Row}
use frama_c_mcp.Coverage.Drift.{Files, SourceDrift, no_drift, SourceDigests, receipt_source_drift}
use frama_c_mcp.Coverage.Profile.{VerificationProfile, receipt_names_function}
use frama_c_mcp.Coverage.Reason.{
  LoadedProject, receipt_matches_project, verification_status_name, row_reason,
}

-- `dedup`: of equal neighbours the first stays
unfoldable pub dedup : List String → List String
dedup [] = []
dedup (s ∷ []) = s ∷ []
dedup (s ∷ t ∷ rest) = let behind = dedup (t ∷ rest) in if s =ˢ t then behind else s ∷ behind

-- `sort` and `dedup`
unfoldable pub sorted_names : List String → List String
sorted_names names = dedup (sort_texts names)

unfoldable pub not_started : String → String → Row
not_started function reason = record {
  function = function;
  status = "not_started";
  reason = some reason;
  receipt_sha256 = none;
  changed_sources = [];
  changed_source_count = 0;
  unchecked_sources = [];
  unnamed_sources = 0;
  blocking_callees = [];
  callees = [];
  in_scope_receipt = none;
}

-- the digest that a stored conclusion's receipt gives itself
abbrev stored_sha256 : Option FunctionVerificationState → Option String
stored_sha256 none = none
stored_sha256 (some entry) = and_then entry.proof_receipt (λ receipt. get_str receipt "sha256")

abbrev stored_status : Option FunctionVerificationState → String
stored_status none = "not_started"
stored_status (some entry) = verification_status_name entry.status

-- the row of a target that the project does not define
unfoldable pub undefined_row : String → Option FunctionVerificationState → Row
unfolding not_started
undefined_row function stored = record (not_started function "not_defined_in_project") {
  status = stored_status stored;
  receipt_sha256 = stored_sha256 stored;
}

-- the drift of a conclusion's receipt, and the cache with it
unfoldable pub entry_drift :
    Files → SourceDigests → FunctionVerificationState → SourceDrift × SourceDigests
entry_drift host digests entry = elim entry.proof_receipt [
  | none ↦ (no_drift, digests)
  | some receipt ↦ receipt_source_drift host digests receipt
]

-- what one report is made against; `digest` is the SHA-256 of the server's header of models
pub record Setting : Type 0 where
  pub host : Files
  pub digest : String
  pub loaded : Option LoadedProject
  pub verify_profile : Option (String × VerificationProfile)

-- whether a receipt's goals count in the report
abbrev is_in_scope : Setting → FunctionVerificationState → Option String → Value → Bool
is_in_scope t entry reason receipt =
    not (is_text reason "different_verify_profile")
    && not (is_text reason "profile_evidence_mismatch")
    && receipt_names_function receipt entry.function
    && receipt_matches_project t.host receipt t.loaded

abbrev in_scope_of : Setting → FunctionVerificationState → Option String → Option Value
in_scope_of t entry reason =
    and_then entry.proof_receipt
      (λ receipt. if is_in_scope t entry reason receipt then some receipt else none)

-- the row of a target with a conclusion
unfoldable pub entry_row : Setting → String → FunctionVerificationState → SourceDrift → Row
entry_row t function entry drift =
    let reason = row_reason t.host t.digest entry t.verify_profile drift t.loaded in
    record {
      function = function;
      status = verification_status_name entry.status;
      reason = reason;
      receipt_sha256 = and_then entry.proof_receipt (λ receipt. get_str receipt "sha256");
      changed_sources = drift.changed;
      changed_source_count = length drift.changed;
      unchecked_sources = drift.unchecked;
      unnamed_sources = drift.unnamed;
      blocking_callees = [];
      callees = entry.callees;
      in_scope_receipt = in_scope_of t entry reason;
    }

abbrev pub is_in : String → List String → Bool
is_in name names = any (λ n. n =ˢ name) names

unfoldable pub target_row :
    Setting
    → List String
    → List (String × FunctionVerificationState)
    → SourceDigests
    → String
    → Row × SourceDigests
target_row t defined conclusions digests function =
    if not (is_in function defined)
    then (undefined_row function (lookup function conclusions), digests)
    else elim (lookup function conclusions) [
      | none ↦ (not_started function "missing_conclusion", digests)
      | some entry ↦
          let drift = entry_drift t.host digests entry in
          (entry_row t function entry drift.0, drift.1)
    ]

-- the rows in the order of the targets
unfoldable pub target_rows :
    Setting
    → List String
    → List (String × FunctionVerificationState)
    → SourceDigests
    → List String
    → List Row
target_rows t defined conclusions digests [] = []
target_rows t defined conclusions digests (function ∷ functions) =
    let row = target_row t defined conclusions digests function in
    row.0 ∷ target_rows t defined conclusions row.1 functions

-- `entry(key).or_insert(v)` of a `BTreeMap`, as a list in the order of its keys
unfoldable pub or_insert : String → Value → List (String × Value) → List (String × Value)
or_insert k v [] = (k, v) ∷ []
or_insert k v ((j, w) ∷ m) =
    let rest = or_insert k v m in
    elim (compare k j) [
      | Ordering.lt ↦ (k, v) ∷ (j, w) ∷ m
      | Ordering.eq ↦ (j, w) ∷ m
      | Ordering.gt ↦ (j, w) ∷ rest
    ]

abbrev receipt_key : Row → String
receipt_key row = elim row.receipt_sha256 [
  | some digest ↦ append "sha256:" digest
  | none ↦ append "function:" row.function
]

-- the receipts in scope, the first of each key
unfoldable pub receipts_of : List (String × Value) → List Row → List (String × Value)
receipts_of kept [] = kept
receipts_of kept (row ∷ rows) =
    receipts_of
      (elim row.in_scope_receipt [
        | none ↦ kept
        | some receipt ↦ or_insert (receipt_key row) receipt kept
      ])
      rows
