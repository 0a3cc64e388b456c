-- ===== src/Session/Store/Valid.antt =====
-- What each entry of a session has passed (src/state.rs, `validate_verified_conclusion`), kept by
-- every operation on the conclusions.
use frama_c_mcp.Prelude.{
  ℕ, String, ◌≡◌, refl, Bool-cases, inl, inr, true, false, Option, Option-cases, none, some, [],
  ◌∷◌, ◌=ˢ◌, lookup, put, if◌then◌else◌, All, arith,
}
use frama_c_mcp.Json.{is_some}
use frama_c_mcp.Receipt.{Digests}
use frama_c_mcp.Session.Data.{
  VerificationStatus, in_progress, verified, failed, unsound, blocked_on_callee,
  FunctionVerificationState, FunctionConclusionUpdate, empty_conclusion_static,
}
use frama_c_mcp.Session.Conclusions.{
  Conclusions, is_verified, validate_verified_conclusion, merged_entry, refresh_environment,
  refresh_dependency, same_dependencies, stale_after, mark_stale,
}
use frama_c_mcp.Session.Store.{
  map_others, store_conclusion, update_entry, refresh_environments, refresh_dependencies,
  on_sandbox_created, on_annotation_added, on_sandbox_deleted, restarted,
}

module _ (h : Digests) where
  abbrev Passes : FunctionVerificationState → Type 0
  Passes e = validate_verified_conclusion h e ≡ none

  -- every entry of the session passes the check
  unfoldable pub AllValid : Conclusions → Type 0
  AllValid = All (λ named. Passes named.1)

  unverified_passes :
      (e : FunctionVerificationState)
      → is_verified e.status ≡ false
      → validate_verified_conclusion h e ≡ none
  unfolding validate_verified_conclusion
  unverified_passes e eq = rw eq

  validate-refresh_environment :
      (current : String) (e : FunctionVerificationState)
      → validate_verified_conclusion h e ≡ none
      → validate_verified_conclusion h (refresh_environment current e) ≡ none
  unfolding validate_verified_conclusion refresh_environment
  validate-refresh_environment current e passes = ground arith

  verified_is_fresh :
      (e : FunctionVerificationState)
      → is_verified e.status ≡ true
      → validate_verified_conclusion h e ≡ none
      → e.stale_dependencies ≡ []
  unfolding validate_verified_conclusion
  verified_is_fresh e yes_verified passes = ground arith

  validate-refresh_dependency :
      (function current : String) (e : FunctionVerificationState)
      → validate_verified_conclusion h e ≡ none
      → validate_verified_conclusion h (refresh_dependency function current e) ≡ none
  unfolding validate_verified_conclusion refresh_dependency stale_after mark_stale same_dependencies
  validate-refresh_dependency function current e passes = elim (Bool-cases (is_verified e.status)) [
    | inl eq ↦ let fresh = verified_is_fresh e eq passes in ground arith
    | inr eq ↦ ground arith
  ]

  AllValid-map_others :
      (function : String) (f : FunctionVerificationState → FunctionVerificationState)
      → ((e : FunctionVerificationState) → Passes e → Passes (f e))
      → (m : Conclusions) → AllValid m
      → AllValid (map_others function f m)
  unfolding AllValid map_others
  AllValid-map_others function f keeps [] every = tt
  AllValid-map_others function f keeps ((name, e) ∷ m) (passes, every) = (
    elim (Bool-cases (name =ˢ function)) [
      | inl eq ↦ rw eq passes
      | inr eq ↦ rw eq (keeps e passes)
    ],
    AllValid-map_others function f keeps m every,
  )

  AllValid-update_entry :
      (function : String) (f : FunctionVerificationState → FunctionVerificationState)
      → ((e : FunctionVerificationState) → Passes e → Passes (f e))
      → (m : Conclusions) → AllValid m
      → AllValid (update_entry function f m)
  unfolding AllValid update_entry
  AllValid-update_entry function f keeps [] every = tt
  AllValid-update_entry function f keeps ((name, e) ∷ m) (passes, every) =
      elim (Bool-cases (name =ˢ function)) [
        | inl eq ↦ rw eq (keeps e passes, every)
        | inr eq ↦ rw eq (passes, AllValid-update_entry function f keeps m every)
      ]

  AllValid-put :
      (function : String) (e : FunctionVerificationState) (m : Conclusions)
      → Passes e
      → AllValid m
      → AllValid (put function e m)
  unfolding AllValid put
  AllValid-put function e [] passes every = (passes, tt)
  AllValid-put function e ((name, d) ∷ m) passes (old, every) =
      elim (Bool-cases (name =ˢ function)) [
        | inl eq ↦ rw eq (passes, every)
        | inr eq ↦ rw eq (old, AllValid-put function e m passes every)
      ]

  AllValid-refresh_environments :
      (current : Option String) (function : String) (m : Conclusions)
      → AllValid m
      → AllValid (refresh_environments current function m)
  unfolding refresh_environments
  AllValid-refresh_environments none function m every = every
  AllValid-refresh_environments (some current) function m every =
      AllValid-map_others function (refresh_environment current)
        (validate-refresh_environment current) m every

  AllValid-refresh_dependencies :
      (function : String) (m : Conclusions)
      → AllValid m
      → AllValid (refresh_dependencies h function m)
  unfolding refresh_dependencies
  AllValid-refresh_dependencies function m every =
      AllValid-map_others function _ (validate-refresh_dependency function _) m every

  -- Storing a conclusion, accepted or refused, leaves a session whose entries all pass the check in one
  -- whose entries all do: those the new contract or the new environment makes stale are demoted.
  pub store_conclusion-AllValid :
      (u : FunctionConclusionUpdate) (m : Conclusions)
      → AllValid m
      → AllValid (store_conclusion h u m).0
  unfolding store_conclusion
  store_conclusion-AllValid u m every =
      elim (Option-cases (validate_verified_conclusion h (merged_entry h m u))) [
        | inl eq ↦
            rw (eq, store_conclusion)
              (AllValid-refresh_dependencies u.function _ (
                AllValid-refresh_environments _ u.function _
                  (AllValid-put u.function _ m eq every)))
        | inr (e, eq) ↦ rw (eq, store_conclusion) every
      ]

  restarted_is_unverified : (s : VerificationStatus) → is_verified (restarted s) ≡ false
  restarted_is_unverified in_progress = refl
  restarted_is_unverified verified = refl
  restarted_is_unverified failed = refl
  restarted_is_unverified unsound = refl
  restarted_is_unverified blocked_on_callee = refl

  AllValid-ensure :
      (function : String) (m : Conclusions)
      → AllValid m
      → AllValid (
          if is_some (lookup function m)
          then m
          else put function (empty_conclusion_static function) m)
  AllValid-ensure function m every = elim (Bool-cases (is_some (lookup function m))) [
    | inl eq ↦ rw eq every
    | inr eq ↦ rw eq (
        AllValid-put function _ m (unverified_passes (empty_conclusion_static function) refl) every)
  ]

  -- Where every entry of the session passes the check, every entry still does after a sandbox is
  -- created, which restarts the function's verification, after an annotation is added to it, and after
  -- it is deleted.
  pub sandbox-AllValid :
      (function : String) (ast_stmt_count : Option ℕ) (m : Conclusions)
      → AllValid m
      → AllValid (on_sandbox_created function ast_stmt_count m)
        × AllValid (on_annotation_added function m)
        × AllValid (on_sandbox_deleted function m)
  unfolding on_sandbox_created on_annotation_added on_sandbox_deleted validate_verified_conclusion
  sandbox-AllValid function ast_stmt_count m every = (
    AllValid-update_entry function _ (λ e passes. rw (restarted_is_unverified e.status) refl) _
        (AllValid-ensure function m every),
    AllValid-update_entry function _ (λ e passes. passes) m every,
    AllValid-update_entry function _ (λ e passes. passes) m every,
  )
