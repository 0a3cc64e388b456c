-- ===== src/Session/Conclusions.antt =====
-- What a session concludes of each function (src/state.rs, `store_conclusion` and what it calls, and
-- the effects of the sandbox's life). The digests are an argument, as for receipts.
use frama_c_mcp.Prelude.{
  String, Bool, true, false, ◌&&◌, not, ◌%◌, ◌^◌, Option, none, some, List, [], ◌∷◌, ◌++◌, map,
  is_empty, length, filter_by, ◌=ˢ◌, ◌==◌, lookup, if◌then◌else◌,
}
use frama_c_mcp.Json.{Value, string, number, obj, arr, get, or_else, unwrap_or, is_some}
use frama_c_mcp.Receipt.{Digests}
use frama_c_mcp.Receipt.Evidence.{Refusal, proof_receipt_evidence_error}
use frama_c_mcp.Session.Data.{
  VerificationStatus, in_progress, verified, AnnotationEntry, WpGoalSummary, StaleDependency,
  StaleProofEnvironment, FunctionVerificationState, FunctionConclusionUpdate,
  empty_conclusion_static,
}

abbrev pub Conclusions : Type 0
Conclusions = List (String × FunctionVerificationState)

-- The refusals of `validate_verified_conclusion`, one for each text.
pub data StoreError : Type 0 where
  stale_callee_contracts stale_environment missing_wp_summary not_fully_valid
        missing_proof_receipt :
      StoreError
  missing_callee_hash : String → StoreError
  not_evidence : Refusal → StoreError

abbrev pub is_verified : VerificationStatus → Bool
is_verified verified = true
is_verified _ = false

-- The fields of an entry as its derived serialization writes them; an absent option is left out.
optional_field : String → Option Value → List (String × Value)
optional_field key none = []
optional_field key (some v) = (key, v) ∷ []

abbrev pub map_option {ℓ κ} : {A : Type ℓ} {B : Type κ} → (A → B) → Option A → Option B
map_option f none = none
map_option f (some a) = some (f a)

entry_value : AnnotationEntry → Value
unfolding optional_field
entry_value e = obj (
    ("hash_label", string e.hash_label)
      ∷ optional_field "user_label" (map_option string e.user_label)
    ++ ("kind", string e.kind) ∷ ("acsl", string e.acsl) ∷ optional_field "stmt_id" e.stmt_id
    ++ ("derived_from", string e.derived_from)
      ∷ ("source", string "generated")
      ∷ ("purpose", string e.purpose)
      ∷ optional_field "proof_target" (map_option string e.proof_target)
    ++ optional_field "wp_status" (map_option string e.wp_status)
    ++ optional_field "wp_time_ms" (map_option number e.wp_time_ms)
    ++ optional_field "wp_prover" (map_option string e.wp_prover))

unfoldable pub specs_hash : Digests → List AnnotationEntry → String
unfolding entry_value
specs_hash h specs = h.of_json (some (arr (map entry_value specs)))

unfoldable pub specs_hash_for_function : Digests → Conclusions → String → String
specs_hash_for_function h conclusions function = elim (lookup function conclusions) [
  | none ↦ specs_hash h []
  | some entry ↦ specs_hash h entry.specs
]

unfoldable pub proof_environment_hash : Digests → Value → String
proof_environment_hash h receipt = h.of_json (get receipt "environment")

-- the first callee without a recorded hash
unfoldable pub missing_callee : List String → List (String × String) → Option String
missing_callee [] hashes = none
missing_callee (callee ∷ callees) hashes =
    if is_some (lookup callee hashes) then missing_callee callees hashes else some callee

unfoldable pub is_fully_valid : WpGoalSummary → Bool
is_fully_valid s =
    not (s.total == 0) && s.valid == s.total && s.unknown == 0 && s.timeout == 0 && s.failed == 0

-- `None` is `Ok(())`.
unfoldable pub validate_verified_conclusion :
    Digests → FunctionVerificationState → Option StoreError
unfolding missing_callee is_fully_valid
validate_verified_conclusion h entry =
    if not (is_verified entry.status)
    then none
    else if not (is_empty entry.stale_dependencies)
    then some stale_callee_contracts
    else if is_some entry.stale_proof_environment
    then some stale_environment
    else elim (missing_callee entry.callees entry.callee_spec_hashes) [
      | some callee ↦ some (missing_callee_hash callee)
      | none ↦ elim entry.wp_summary [
        | none ↦ some missing_wp_summary
        | some summary ↦
            if not (is_fully_valid summary)
            then some not_fully_valid
            else elim entry.proof_receipt [
              | none ↦ some missing_proof_receipt
              | some receipt ↦
                  elim (proof_receipt_evidence_error h receipt summary.total entry.function) [
                    | some reason ↦ some (not_evidence reason)
                    | none ↦ none
                  ]
            ]
      ]
    ]

-- the fields that an update sets: `Some` overwrites, `None` keeps
unfoldable pub merge_fields :
    Digests → FunctionConclusionUpdate → FunctionVerificationState → FunctionVerificationState
unfolding proof_environment_hash
merge_fields h u e =
    let specs = unwrap_or u.specs e.specs in
    record e {
      status = unwrap_or u.status e.status;
      specs = specs;
      annotation_count = length specs % 2 ^ 32;
      wp_summary = or_else u.wp_summary e.wp_summary;
      notes = unwrap_or u.notes e.notes;
      callees = unwrap_or u.callees e.callees;
      proof_receipt = or_else u.proof_receipt e.proof_receipt;
      proof_env_hash = elim u.proof_receipt [
        | none ↦ e.proof_env_hash
        | some receipt ↦ some (proof_environment_hash h receipt)
      ];
      stale_proof_environment = if is_some u.proof_receipt then none else e.stale_proof_environment;
      verify_profile = or_else u.verify_profile e.verify_profile;
      reproduce = if is_some u.verify_profile then u.reproduce else e.reproduce;
    }

-- an update with callees records the hash of each one's contract as it is stored now
unfoldable pub record_callees :
    Digests
    → Conclusions
    → FunctionConclusionUpdate
    → FunctionVerificationState
    → FunctionVerificationState
record_callees h conclusions u e =
    if is_some u.callees
    then record e {
      callee_spec_hashes =
          map (λ callee. (callee, specs_hash_for_function h conclusions callee)) e.callees;
      stale_dependencies = [];
    }
    else e

-- the entry that an update is about to store
unfoldable pub merged_entry :
    Digests → Conclusions → FunctionConclusionUpdate → FunctionVerificationState
unfolding merge_fields record_callees
merged_entry h conclusions u = record_callees h conclusions u (
    merge_fields h u
      (unwrap_or (lookup u.function conclusions) (empty_conclusion_static u.function)))

abbrev pub demoted : VerificationStatus → VerificationStatus
demoted status = if is_verified status then in_progress else status

-- `!=` on the two stale marks
unfoldable pub same_environment : Option StaleProofEnvironment → Option StaleProofEnvironment → Bool
same_environment none none = true
same_environment (some a) (some b) =
    a.recorded_env_hash =ˢ b.recorded_env_hash && a.current_env_hash =ˢ b.current_env_hash
same_environment _ _ = false

unfoldable pub same_dependencies : List StaleDependency → List StaleDependency → Bool
same_dependencies [] [] = true
same_dependencies (a ∷ more) (b ∷ others) =
    a.callee =ˢ b.callee
    && a.recorded_specs_hash =ˢ b.recorded_specs_hash
    && a.current_specs_hash =ˢ b.current_specs_hash
    && same_dependencies more others
same_dependencies _ _ = false

-- one turn of the first loop, on another function's entry
unfoldable pub refresh_environment : String → FunctionVerificationState → FunctionVerificationState
refresh_environment current e = elim e.proof_env_hash [
  | none ↦ e
  | some recorded ↦
      if recorded =ˢ current then record e { stale_proof_environment = none } else record e {
        stale_proof_environment =
            some (record { recorded_env_hash = recorded; current_env_hash = current });
        status = demoted e.status;
      }
]

-- `find` and the assignments to what it found, or the `push`
unfoldable pub mark_stale : StaleDependency → List StaleDependency → List StaleDependency
mark_stale dep [] = dep ∷ []
mark_stale dep (d ∷ ds) =
    if d.callee =ˢ dep.callee
    then record d {
      recorded_specs_hash = dep.recorded_specs_hash;
      current_specs_hash = dep.current_specs_hash;
    }
      ∷ ds
    else d ∷ mark_stale dep ds

unfoldable pub stale_after : String → String → String → List StaleDependency → List StaleDependency
unfolding mark_stale
stale_after function recorded current deps =
    if recorded =ˢ current
    then filter_by (λ d. not (d.callee =ˢ function)) deps
    else mark_stale
        (record { callee = function; recorded_specs_hash = recorded; current_specs_hash = current })
        deps

-- one turn of the second loop, on another function's entry
unfoldable pub refresh_dependency :
    String → String → FunctionVerificationState → FunctionVerificationState
unfolding stale_after
refresh_dependency function current e = elim (lookup function e.callee_spec_hashes) [
  | none ↦ e
  | some recorded ↦
      let deps = stale_after function recorded current e.stale_dependencies in
      record e {
        stale_dependencies = deps;
        status =
            if not (same_dependencies deps e.stale_dependencies) && not (is_empty deps)
            then demoted e.status
            else e.status;
      }
]
