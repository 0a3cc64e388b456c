-- ===== src/Session/Store.antt =====
-- The operations on the conclusions of a session (src/state.rs, `store_conclusion` to
-- `list_conclusions`).
pub mod Valid
pub mod Current
pub mod Verified
pub mod Reached
pub mod View
use frama_c_mcp.Prelude.{
  ℕ, String, Bool, true, false, ◌&&◌, ◌||◌, not, ◌+◌, ◌^◌, ◌-◌, Option, none, some, List, [], ◌∷◌,
  ◌++◌, map, any, filter_by, ◌=ˢ◌, ltb, lookup, put, if◌then◌else◌, Result, ok, err,
}
use frama_c_mcp.Json.{
  Value, null, string, number, obj, arr, get, and_then, or_else, unwrap_or, is_some, pointer,
}
use frama_c_mcp.Receipt.{Digests}
use frama_c_mcp.Session.Data.{
  VerificationStatus, in_progress, verified, failed, unsound, blocked_on_callee, WpGoalSummary,
  FunctionVerificationState, FunctionConclusionUpdate, ConclusionSummary, empty_conclusion_static,
}
use frama_c_mcp.Session.Conclusions.{
  Conclusions, StoreError, is_verified, specs_hash_for_function, validate_verified_conclusion,
  merged_entry, refresh_environment, refresh_dependency, same_dependencies, same_environment,
  proof_environment_hash,
}

-- a loop over the keys other than `function`
unfoldable pub map_others :
    String → (FunctionVerificationState → FunctionVerificationState) → Conclusions → Conclusions
map_others function f [] = []
map_others function f ((name, e) ∷ m) =
    (name, if name =ˢ function then e else f e) ∷ map_others function f m

-- the names that a loop pushes on `touched`: the others whose entry fails the comparison
changed_others :
    String
    → (FunctionVerificationState → FunctionVerificationState)
    → (FunctionVerificationState → FunctionVerificationState → Bool)
    → Conclusions
    → List String
changed_others function f same [] = []
changed_others function f same ((name, e) ∷ m) =
    let rest = changed_others function f same m in
    if name =ˢ function || same (f e) e then rest else name ∷ rest

unfoldable pub refresh_environments : Option String → String → Conclusions → Conclusions
unfolding map_others
refresh_environments none function m = m
refresh_environments (some current) function m = map_others function (refresh_environment current) m

touched_environments : Option String → String → Conclusions → List String
unfolding changed_others
touched_environments none function m = []
touched_environments (some current) function m =
    changed_others function (refresh_environment current)
      (λ a b. same_environment a.stale_proof_environment b.stale_proof_environment) m

unfoldable pub refresh_dependencies : Digests → String → Conclusions → Conclusions
unfolding map_others
refresh_dependencies h function m =
    map_others function (refresh_dependency function (specs_hash_for_function h m function)) m

touched_dependencies : Digests → String → Conclusions → List String
unfolding changed_others
touched_dependencies h function m =
    changed_others function (refresh_dependency function (specs_hash_for_function h m function))
      (λ a b. same_dependencies a.stale_dependencies b.stale_dependencies) m

-- what the update's receipt was run under, and nothing without a receipt
unfoldable pub updated_environment : Digests → FunctionConclusionUpdate → Option String
updated_environment h u = elim u.proof_receipt [
  | none ↦ none
  | some receipt ↦ some (proof_environment_hash h receipt)
]

-- The refused update leaves the conclusions as they are; the other answers the touched names.
unfoldable pub store_conclusion :
    Digests → FunctionConclusionUpdate → Conclusions → Conclusions × Result StoreError (List String)
unfolding updated_environment touched_environments touched_dependencies
store_conclusion h u conclusions =
    elim (validate_verified_conclusion h (merged_entry h conclusions u)) [
      | some e ↦ (conclusions, err e)
      | none ↦
          let stored = put u.function (merged_entry h conclusions u) conclusions in
          let current = updated_environment h u in
          let refreshed = refresh_environments current u.function stored in
          (
            refresh_dependencies h u.function refreshed,
            ok (
                u.function ∷ touched_environments current u.function stored
                ++ touched_dependencies h u.function refreshed),
          )
    ]

-- `get_mut`: the entry of one function, where it has one
unfoldable pub update_entry :
    String → (FunctionVerificationState → FunctionVerificationState) → Conclusions → Conclusions
update_entry function f [] = []
update_entry function f ((name, e) ∷ m) =
    if name =ˢ function then (name, f e) ∷ m else (name, e) ∷ update_entry function f m

abbrev pub restarted : VerificationStatus → VerificationStatus
restarted in_progress = in_progress
restarted verified = in_progress
restarted failed = in_progress
restarted unsound = in_progress
restarted blocked_on_callee = in_progress

unfoldable pub on_sandbox_created : String → Option ℕ → Conclusions → Conclusions
unfolding update_entry
on_sandbox_created function ast_stmt_count conclusions =
    let there =
      if is_some (lookup function conclusions)
      then conclusions
      else put function (empty_conclusion_static function) conclusions in
    update_entry function
      (λ e. record e {
        ast_stmt_count = ast_stmt_count;
        sandbox_clean = true;
        annotation_count = 0;
        sandbox_deleted = false;
        status = restarted e.status;
      })
      there

-- `saturating_add(1)` on a u32
unfoldable pub on_annotation_added : String → Conclusions → Conclusions
unfolding update_entry
on_annotation_added function conclusions =
    update_entry function
      (λ e. record e {
        sandbox_clean = false;
        annotation_count =
            if ltb e.annotation_count (2 ^ 32 - 1) then e.annotation_count + 1 else 2 ^ 32 - 1;
      })
      conclusions

unfoldable pub on_sandbox_deleted : String → Conclusions → Conclusions
unfolding update_entry
on_sandbox_deleted function conclusions =
    update_entry function (λ e. record e { sandbox_deleted = true }) conclusions

-- `cloned` values are written in place; an absent one is null.
or_null : Option Value → Value
or_null o = unwrap_or o null

text_or_null : Option String → Value
text_or_null none = null
text_or_null (some s) = string s

unfoldable pub verified_with : FunctionVerificationState → Option Value
unfolding or_null text_or_null
verified_with conclusion =
    if not (is_verified conclusion.status)
    then none
    else and_then conclusion.proof_receipt (λ receipt. some (
        obj (
          (
            "model",
            or_null (
                or_else (pointer receipt ("wp" ∷ "model" ∷ []))
                  (and_then conclusion.wp_summary (λ s. and_then s.model (λ m. some (string m))))),
          )
          ∷ ("provers", or_null (pointer receipt ("wp" ∷ "provers" ∷ "effective" ∷ [])))
          ∷ (
            "timeout_seconds",
            or_null (
                or_else (pointer receipt ("wp" ∷ "timeout_seconds" ∷ "effective" ∷ [])) (
                  and_then conclusion.wp_summary
                    (λ s. and_then s.timeout_used (λ t. some (number t))))),
          )
          ∷ ("assumed_callee_contracts", arr (map string conclusion.callees))
          ∷ ("proof_receipt_sha256", or_null (get receipt "sha256"))
          ∷ ("verify_profile", text_or_null conclusion.verify_profile)
          ∷ ("reproduce", text_or_null conclusion.reproduce)
          ∷ [])))

same_status : VerificationStatus → VerificationStatus → Bool
same_status in_progress in_progress = true
same_status verified verified = true
same_status failed failed = true
same_status unsound unsound = true
same_status blocked_on_callee blocked_on_callee = true
same_status _ _ = false

unfoldable pub list_conclusions : Option VerificationStatus → Conclusions → List ConclusionSummary
unfolding same_status
list_conclusions status_filter conclusions =
    map
      (λ (named : String × FunctionVerificationState).
        let c = named.1 in
        record {
          function = c.function;
          status = c.status;
          wp_summary = c.wp_summary;
          verified_with = verified_with c;
        })
      (filter_by
        (λ (named : String × FunctionVerificationState). elim status_filter [
          | none ↦ true
          | some wanted ↦ same_status named.1.status wanted
        ])
        conclusions)
