-- ===== src/Session/Store/View.antt =====
-- Storing a conclusion as an update of a map, whatever the list that holds the map.
use frama_c_mcp.Prelude.{
  String, ◌≡◌, refl, sym, Bool-cases, inl, inr, false, Option, Option-cases, none, some, [], map,
  ◌=ˢ◌, =ˢ_iff, =ˢ_refl, lookup, put, lookup-put, if◌then◌else◌, arith,
}
use frama_c_mcp.Json.{unwrap_or, is_some}
use frama_c_mcp.Receipt.{Digests}
use frama_c_mcp.Session.Data.{
  FunctionVerificationState, FunctionConclusionUpdate, empty_conclusion_static,
}
use frama_c_mcp.Session.Conclusions.{
  Conclusions, validate_verified_conclusion, merged_entry, merge_fields, record_callees,
  refresh_environment, refresh_dependency, map_option, specs_hash, specs_hash_for_function,
}
use frama_c_mcp.Session.Store.{
  store_conclusion, refresh_environments, refresh_dependencies, updated_environment,
}
use frama_c_mcp.Session.Store.Current.{lookup-map_others}

-- What is concluded of each function.
abbrev pub View : Type 0
View = String → Option FunctionVerificationState

abbrev pub view_of : Conclusions → View
view_of m name = lookup name m

module _ (h : Digests) where
  -- the hash of a function's contract, of no contract where it has no entry
  abbrev view_hash : View → String → String
  view_hash v name = elim (v name) [ none ↦ specs_hash h [] | some e ↦ specs_hash h e.specs ]

  -- the entry that an update makes of the one that is there
  abbrev pub view_merged : View → FunctionConclusionUpdate → FunctionVerificationState
  view_merged v u =
      let base = merge_fields h u (unwrap_or (v u.function) (empty_conclusion_static u.function)) in
      if is_some u.callees
      then record base {
        callee_spec_hashes = map (λ callee. (callee, view_hash v callee)) base.callees;
        stale_dependencies = [];
      }
      else base

  -- what becomes of another function's entry
  abbrev pub refreshed :
      FunctionConclusionUpdate → String → FunctionVerificationState → FunctionVerificationState
  refreshed u contract e =
      refresh_dependency u.function contract
        (elim (updated_environment h u) [ none ↦ e | some env ↦ refresh_environment env e ])

  -- The update: nothing when the new entry is refused; else the new entry at its function, and every other
  -- entry told of the new contract and the new environment.
  unfoldable pub view_store : FunctionConclusionUpdate → View → View
  view_store u v name =
      let merged = view_merged v u in
      elim (validate_verified_conclusion h merged) [
        | some refusal ↦ v name
        | none ↦
            if u.function =ˢ name
            then some merged
            else map_option (refreshed u (specs_hash h merged.specs)) (v name)
      ]

  merged_entry-view_merged :
      (m : Conclusions) (u : FunctionConclusionUpdate)
      → merged_entry h m u ≡ view_merged (view_of m) u
  unfolding merged_entry record_callees specs_hash_for_function
  merged_entry-view_merged m u = refl

  lookup-refresh_environments :
      (env : Option String) (function name : String) (m : Conclusions)
      → lookup name (refresh_environments env function m) ≡ (
          if name =ˢ function
          then lookup name m
          else map_option
              (λ e. elim env [ none ↦ e | some s ↦ refresh_environment s e ])
              (lookup name m))
  unfolding refresh_environments
  lookup-refresh_environments none function name m = elim (Option-cases (lookup name m)) [
    | inl eq ↦ ground arith
    | inr (e, eq) ↦ ground arith
  ]
  lookup-refresh_environments (some env) function name m =
      lookup-map_others h name function (refresh_environment env) m

  -- the contract that the second loop compares with is the one just stored
  stored_hash :
      (env : Option String) (function : String) (e : FunctionVerificationState) (m : Conclusions)
      → specs_hash_for_function h (refresh_environments env function (put function e m)) function
        ≡ specs_hash h e.specs
  unfolding specs_hash_for_function
  stored_hash env function e m = ground (
    arith,
    lookup-refresh_environments env function function (put function e m),
    lookup-put function function e m,
    =ˢ_refl function,
  )

  accepted :
      (u : FunctionConclusionUpdate) (merged : FunctionVerificationState) (m : Conclusions)
      (name : String)
      → lookup name (
          refresh_dependencies h u.function
            (refresh_environments (updated_environment h u) u.function (put u.function merged m)))
        ≡ (if u.function =ˢ name
            then some merged
            else map_option (refreshed u (specs_hash h merged.specs)) (lookup name m))
  unfolding refresh_dependencies
  accepted u merged m name =
      let env = updated_environment h u in
      let stored = put u.function merged m in
      let environments = refresh_environments env u.function stored in
      let contract = specs_hash_for_function h environments u.function in
      let second =
        lookup-map_others h name u.function (refresh_dependency u.function contract) environments in
      let first = lookup-refresh_environments env u.function name stored in
      let base = lookup-put u.function name merged m in
      let told : contract ≡ specs_hash h merged.specs = stored_hash env u.function merged m in
      elim (Bool-cases (u.function =ˢ name)) [
        | inl here ↦ ground (arith, =ˢ_iff u.function name, =ˢ_iff name u.function)
        | inr other ↦
            let differ : (name =ˢ u.function) ≡ false =
              ground (arith, =ˢ_iff u.function name, =ˢ_iff name u.function) in
            elim (Option-cases (lookup name m)) [
              | inl missing ↦ ground arith
              | inr (e, found) ↦ ground arith
            ]
      ]

  -- What a session concludes after an update, accepted or refused, is the update of the map of what it
  -- concluded before.
  pub store_conclusion-view_store :
      (u : FunctionConclusionUpdate) (m : Conclusions) (name : String)
      → view_of (store_conclusion h u m).0 name ≡ view_store u (view_of m) name
  unfolding store_conclusion view_store merged_entry lookup specs_hash_for_function
  store_conclusion-view_store u m name =
      let same : merged_entry h m u ≡ view_merged (view_of m) u = merged_entry-view_merged m u in
      elim (Option-cases (validate_verified_conclusion h (merged_entry h m u))) [
        | inr (refusal, eq) ↦ rw (sym same, eq, store_conclusion, view_store) refl
        | inl eq ↦
            rw (sym same, eq, store_conclusion, view_store) (accepted u (merged_entry h m u) m name)
      ]
