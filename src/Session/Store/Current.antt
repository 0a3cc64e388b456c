-- ===== src/Session/Store/Current.antt =====
-- Which callee contracts the entries of a session were proved against (src/state.rs, the hashes and
-- the stale marks of `store_conclusion`).
use frama_c_mcp.Prelude.{
  String, ◌≡◌, refl, Bool, Bool-cases, ◌⊎◌, inl, inr, true, false, not, ◌||◌, Option, Option-cases,
  none, some, List, [], ◌∷◌, map, any, filter_by, ◌=ˢ◌, =ˢ_iff, =ˢ_refl, lookup, put, lookup-put,
  if◌then◌else◌, arith,
}
use frama_c_mcp.Json.{unwrap_or}
use frama_c_mcp.Receipt.{Digests}
use frama_c_mcp.Session.Data.{
  FunctionVerificationState, FunctionConclusionUpdate, StaleDependency, empty_conclusion_static,
}
use frama_c_mcp.Session.Conclusions.{
  Conclusions, validate_verified_conclusion, merged_entry, merge_fields, record_callees,
  refresh_environment, refresh_dependency, stale_after, mark_stale, map_option,
  specs_hash_for_function,
}
use frama_c_mcp.Session.Store.{
  map_others, store_conclusion, refresh_environments, refresh_dependencies,
}

-- an entry carries a stale mark for the callee
unfoldable pub mentions : String → List StaleDependency → Bool
mentions callee deps = any (λ d. d.callee =ˢ callee) deps

module _ (h : Digests) where
  -- the hash that an entry recorded for a callee is that of the contract in the session, or the entry
  -- carries a stale mark for it
  abbrev IsTracked : Conclusions → FunctionVerificationState → String → Type 0
  IsTracked m e callee =
      (hash : String)
      → lookup callee e.callee_spec_hashes ≡ some hash
      → (hash ≡ specs_hash_for_function h m callee) ⊎ (mentions callee e.stale_dependencies ≡ true)

  -- this holds of each entry and each callee other than itself
  unfoldable pub IsCurrent : Conclusions → Type 0
  IsCurrent m =
      (name callee : String)
      → (name =ˢ callee) ≡ false
      → (e : FunctionVerificationState) → lookup name m ≡ some e
      → IsTracked m e callee

  pub lookup-map_others :
      (name function : String) (f : FunctionVerificationState → FunctionVerificationState)
      (m : Conclusions)
      → lookup name (map_others function f m)
        ≡ (if name =ˢ function then lookup name m else map_option f (lookup name m))
  unfolding lookup map_others
  lookup-map_others name function f [] = ground arith
  lookup-map_others name function f ((j, e) ∷ m) = ground (
    arith,
    =ˢ_iff j name,
    =ˢ_iff j function,
    =ˢ_iff name function,
    lookup-map_others name function f m,
  )

  -- a loop that keeps the specs keeps their hashes
  specs_hash_for_function-map_others :
      (function : String) (f : FunctionVerificationState → FunctionVerificationState)
      → ((e : FunctionVerificationState) → (f e).specs ≡ e.specs)
      → (m : Conclusions) (name : String)
      → specs_hash_for_function h (map_others function f m) name ≡ specs_hash_for_function h m name
  unfolding specs_hash_for_function
  specs_hash_for_function-map_others function f keeps m name = elim (Option-cases (lookup name m)) [
    | inl eq ↦ ground (arith, lookup-map_others name function f m)
    | inr (e, eq) ↦ ground (arith, lookup-map_others name function f m, keeps e)
  ]

  refresh_environment-keeps :
      (current : String) (e : FunctionVerificationState)
      → (refresh_environment current e).specs ≡ e.specs
        × (refresh_environment current e).callee_spec_hashes ≡ e.callee_spec_hashes
        × (refresh_environment current e).stale_dependencies ≡ e.stale_dependencies
  unfolding refresh_environment
  refresh_environment-keeps current e = ground arith

  refresh_dependency-keeps :
      (function current : String) (e : FunctionVerificationState)
      → (refresh_dependency function current e).specs ≡ e.specs
        × (refresh_dependency function current e).callee_spec_hashes ≡ e.callee_spec_hashes
  unfolding refresh_dependency
  refresh_dependency-keeps function current e = ground arith

  mentions-mark_stale :
      (callee : String) (dep : StaleDependency) (deps : List StaleDependency)
      → mentions callee (mark_stale dep deps) ≡ (dep.callee =ˢ callee || mentions callee deps)
  unfolding mentions mark_stale
  mentions-mark_stale callee dep [] = refl
  mentions-mark_stale callee dep (d ∷ deps) = ground (
    arith,
    =ˢ_iff d.callee dep.callee,
    =ˢ_iff dep.callee callee,
    =ˢ_iff d.callee callee,
    mentions-mark_stale callee dep deps,
  )

  mentions-filter_by :
      (callee function : String) (deps : List StaleDependency)
      → (function =ˢ callee) ≡ false
      → mentions callee (filter_by (λ d. not (d.callee =ˢ function)) deps) ≡ mentions callee deps
  unfolding mentions
  mentions-filter_by callee function [] differ = refl
  mentions-filter_by callee function (d ∷ deps) differ = ground (
    arith,
    =ˢ_iff d.callee function,
    =ˢ_iff d.callee callee,
    =ˢ_iff function callee,
    mentions-filter_by callee function deps differ,
  )

  lookup-recorded :
      (m : Conclusions) (callee hash : String) (names : List String)
      → lookup callee (map (λ name. (name, specs_hash_for_function h m name)) names) ≡ some hash
      → hash ≡ specs_hash_for_function h m callee
  unfolding lookup
  lookup-recorded m callee hash [] eq = absurd (ground arith)
  lookup-recorded m callee hash (name ∷ names) eq =
      grind (arith, =ˢ_iff name callee, lookup-recorded m callee hash names)

  -- the base of a merge is the stored entry or an empty one
  base-IsTracked :
      (u : FunctionConclusionUpdate) (m : Conclusions)
      → IsCurrent m
      → (callee : String) → (u.function =ˢ callee) ≡ false
      → IsTracked m (unwrap_or (lookup u.function m) (empty_conclusion_static u.function)) callee
  unfolding IsCurrent lookup
  base-IsTracked u m current callee differ hash eq = elim (Option-cases (lookup u.function m)) [
    | inl missing ↦ absurd (grind arith)
    | inr (e, found) ↦ rw found (current u.function callee differ e found hash (ground arith))
  ]

  merged_entry-IsTracked :
      (u : FunctionConclusionUpdate) (m : Conclusions)
      → IsCurrent m
      → (callee : String) → (u.function =ˢ callee) ≡ false
      → IsTracked m (merged_entry h m u) callee
  unfolding merged_entry merge_fields record_callees
  merged_entry-IsTracked u m current callee differ hash eq = elim (Option-cases u.callees) [
    | inl kept ↦
        let base = base-IsTracked u m current callee differ hash (ground arith) in ground arith
    | inr (callees, given) ↦ inl (lookup-recorded m callee hash callees (ground arith))
  ]

  -- what the first loop and the insertion establish: all but the contract just stored is tracked
  IsCurrentBut : String → Conclusions → Type 0
  IsCurrentBut function m =
      (name callee : String)
      → (name =ˢ callee) ≡ false
      → (function =ˢ callee) ≡ false
      → (e : FunctionVerificationState) → lookup name m ≡ some e
      → IsTracked m e callee

  IsCurrentBut-put :
      (u : FunctionConclusionUpdate) (m : Conclusions)
      → IsCurrent m
      → IsCurrentBut u.function (put u.function (merged_entry h m u) m)
  unfolding IsCurrent IsCurrentBut specs_hash_for_function
  IsCurrentBut-put u m current name callee differ other e found hash eq =
      let stored = put u.function (merged_entry h m u) m in
      let same : specs_hash_for_function h stored callee ≡ specs_hash_for_function h m callee =
        ground (arith, lookup-put u.function callee (merged_entry h m u) m) in
      let looked = lookup-put u.function name (merged_entry h m u) m in
      elim (Bool-cases (u.function =ˢ name)) [
        | inl it ↦
            let merged : some (merged_entry h m u) ≡ some e = ground arith in
            let tracked = merged_entry-IsTracked u m current callee other hash (ground arith) in
            ground arith
        | inr another ↦
            let old : lookup name m ≡ some e = ground arith in
            let tracked = current name callee differ e old hash eq in ground arith
      ]

  IsCurrentBut-refresh_environments :
      (current_env : Option String) (function : String) (m : Conclusions)
      → IsCurrentBut function m
      → IsCurrentBut function (refresh_environments current_env function m)
  unfolding IsCurrentBut refresh_environments
  IsCurrentBut-refresh_environments none function m but name callee differ other e found hash eq =
      but name callee differ other e found hash eq
  IsCurrentBut-refresh_environments (some env) function m but name callee differ other e found hash
        eq =
      let looked = lookup-map_others name function (refresh_environment env) m in
      let same =
        specs_hash_for_function-map_others function (refresh_environment env)
          (λ d. (refresh_environment-keeps env d).0) m callee in
      elim (Option-cases (lookup name m)) [
        | inl missing ↦ absurd (ground arith)
        | inr (d, old) ↦
            let kept = refresh_environment-keeps env d in
            let tracked = but name callee differ other d old hash in
            elim (Bool-cases (name =ˢ function)) [
              | inl it ↦
                  let entry : d ≡ e = ground arith in let t = tracked (ground arith) in ground arith
              | inr another ↦
                  let entry : refresh_environment env d ≡ e = ground arith in
                  let t = tracked (ground arith) in ground arith
            ]
      ]

  mentions-stale_after :
      (callee function recorded current : String) (deps : List StaleDependency)
      → (function =ˢ callee) ≡ false
      → mentions callee (stale_after function recorded current deps) ≡ mentions callee deps
  unfolding stale_after
  mentions-stale_after callee function recorded current deps differ =
      let marked =
        mentions-mark_stale callee
          (record {
            callee = function;
            recorded_specs_hash = recorded;
            current_specs_hash = current;
          })
          deps in
      let kept = mentions-filter_by callee function deps differ in ground arith

  stale_after-marks :
      (function recorded current : String) (deps : List StaleDependency)
      → (recorded =ˢ current) ≡ false
      → mentions function (stale_after function recorded current deps) ≡ true
  unfolding stale_after
  stale_after-marks function recorded current deps differ =
      let marked =
        mentions-mark_stale function
          (record {
            callee = function;
            recorded_specs_hash = recorded;
            current_specs_hash = current;
          })
          deps in
      ground (arith, =ˢ_refl function)

  -- one turn of the second loop tracks the stored function's contract
  refresh_dependency-tracks :
      (function current hash : String) (e : FunctionVerificationState)
      → lookup function e.callee_spec_hashes ≡ some hash
      → (hash ≡ current)
        ⊎ (mentions function (refresh_dependency function current e).stale_dependencies ≡ true)
  unfolding refresh_dependency
  refresh_dependency-tracks function current hash e eq = elim (Bool-cases (hash =ˢ current)) [
    | inl same ↦ inl ((=ˢ_iff hash current).0 same)
    | inr differ ↦ inr (
        rw (eq, refresh_dependency)
          (stale_after-marks function hash current e.stale_dependencies differ))
  ]

  -- and the others as before
  refresh_dependency-mentions :
      (callee function current : String) (e : FunctionVerificationState)
      → (function =ˢ callee) ≡ false
      → mentions callee (refresh_dependency function current e).stale_dependencies
        ≡ mentions callee e.stale_dependencies
  unfolding refresh_dependency
  refresh_dependency-mentions callee function current e differ =
      elim (Option-cases (lookup function e.callee_spec_hashes)) [
        | inl eq ↦ rw (eq, refresh_dependency)
        | inr (recorded, eq) ↦
            rw (eq, refresh_dependency)
              (mentions-stale_after callee function recorded current e.stale_dependencies differ)
      ]

  IsCurrent-refresh_dependencies :
      (function : String) (m : Conclusions)
      → IsCurrentBut function m
      → IsCurrent (refresh_dependencies h function m)
  unfolding IsCurrentBut IsCurrent refresh_dependencies
  IsCurrent-refresh_dependencies function m but name callee differ e found hash eq =
      let current = specs_hash_for_function h m function in
      let looked = lookup-map_others name function (refresh_dependency function current) m in
      let same =
        specs_hash_for_function-map_others function (refresh_dependency function current)
          (λ d. (refresh_dependency-keeps function current d).0) m callee in
      elim (Option-cases (lookup name m)) [
        | inl missing ↦ absurd (ground arith)
        | inr (d, old) ↦
            let kept = refresh_dependency-keeps function current d in
            elim (Bool-cases (name =ˢ function)) [
              | inl it ↦
                  let entry : d ≡ e = ground arith in
                  let other : (function =ˢ callee) ≡ false =
                    ground
                      (arith, =ˢ_iff name function, =ˢ_iff function callee, =ˢ_iff name callee) in
                  let t = but name callee differ other d old hash (ground arith) in ground arith
              | inr another ↦
                  let entry : refresh_dependency function current d ≡ e = ground arith in
                  elim (Bool-cases (function =ˢ callee)) [
                    | inl this ↦
                        let named = (=ˢ_iff function callee).0 this in
                        let t = refresh_dependency-tracks function current hash d (ground arith) in
                        ground arith
                    | inr other ↦
                        let t = but name callee differ other d old hash (ground arith) in
                        let m = refresh_dependency-mentions callee function current d other in
                        ground arith
                  ]
            ]
      ]

  -- Where every entry's recorded hash of another function's contract is that of the contract in the
  -- session, or is marked stale, storing a conclusion, accepted or refused, keeps it so: a changed
  -- contract marks every entry that recorded the old one.
  pub store_conclusion-IsCurrent :
      (u : FunctionConclusionUpdate) (m : Conclusions)
      → IsCurrent m
      → IsCurrent (store_conclusion h u m).0
  unfolding store_conclusion
  store_conclusion-IsCurrent u m current =
      elim (Option-cases (validate_verified_conclusion h (merged_entry h m u))) [
        | inl eq ↦
            rw (eq, store_conclusion)
              (IsCurrent-refresh_dependencies u.function _
                (IsCurrentBut-refresh_environments _ u.function _ (IsCurrentBut-put u m current)))
        | inr (e, eq) ↦ rw (eq, store_conclusion) current
      ]
