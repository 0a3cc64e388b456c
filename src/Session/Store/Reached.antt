-- ===== src/Session/Store/Reached.antt =====
-- The sessions that the operations of src/state.rs on conclusions lead to.
use frama_c_mcp.Prelude.{
  ℕ, String, ◌≡◌, refl, sym, ap, Bool-cases, inl, inr, true, false, Option, Option-cases, none,
  some, [], ◌∷◌, any, ◌=ˢ◌, =ˢ_iff, lookup, put, lookup-put, if◌then◌else◌, arith,
}
use frama_c_mcp.Json.{is_some}
use frama_c_mcp.Receipt.{Digests}
use frama_c_mcp.Session.Data.{
  FunctionVerificationState, FunctionConclusionUpdate, empty_conclusion_static,
}
use frama_c_mcp.Session.Conclusions.{Conclusions, is_verified, map_option, specs_hash_for_function}
use frama_c_mcp.Session.Store.{
  store_conclusion, update_entry, on_sandbox_created, on_annotation_added, on_sandbox_deleted,
}
use frama_c_mcp.Session.Store.Valid.{AllValid, store_conclusion-AllValid, sandbox-AllValid}
use frama_c_mcp.Session.Store.Current.{IsCurrent, store_conclusion-IsCurrent}
use frama_c_mcp.Session.Store.Verified.{HasProof, verified_callees_are_current, verified-HasProof}

-- One call of an operation on the conclusions.
pub data Step (h : Digests) : Conclusions → Conclusions → Type 0 where
  stored : (u : FunctionConclusionUpdate) (m : Conclusions) → Step h m (store_conclusion h u m).0
  created :
      (function : String) (ast_stmt_count : Option ℕ) (m : Conclusions)
      → Step h m (on_sandbox_created function ast_stmt_count m)
  annotated : (function : String) (m : Conclusions) → Step h m (on_annotation_added function m)
  deleted : (function : String) (m : Conclusions) → Step h m (on_sandbox_deleted function m)

-- A session that a new one comes to by any such calls.
pub data Reached (h : Digests) : Conclusions → Type 0 where
  start : Reached h []
  next : {m n : Conclusions} → Reached h m → Step h m n → Reached h n

lookup-update_entry :
    (name function : String) (f : FunctionVerificationState → FunctionVerificationState)
    (m : Conclusions)
    → lookup name (update_entry function f m)
      ≡ (if function =ˢ name then map_option f (lookup name m) else lookup name m)
unfolding lookup update_entry
lookup-update_entry name function f [] = ground arith
lookup-update_entry name function f ((j, e) ∷ m) = ground (
  arith,
  =ˢ_iff j name,
  =ˢ_iff j function,
  =ˢ_iff function name,
  lookup-update_entry name function f m,
)

module _ (h : Digests) where
  -- what the bookkeeping of a sandbox leaves alone
  Keeps : (FunctionVerificationState → FunctionVerificationState) → Type 0
  Keeps f =
      (e : FunctionVerificationState)
      → ((f e).specs ≡ e.specs)
        × ((f e).callee_spec_hashes ≡ e.callee_spec_hashes)
        × ((f e).stale_dependencies ≡ e.stale_dependencies)

  specs_hash_for_function-update_entry :
      (function : String) (f : FunctionVerificationState → FunctionVerificationState)
      → Keeps f
      → (m : Conclusions) (name : String)
      → specs_hash_for_function h (update_entry function f m) name
        ≡ specs_hash_for_function h m name
  unfolding specs_hash_for_function Keeps
  specs_hash_for_function-update_entry function f keeps m name =
      elim (Option-cases (lookup name m)) [
        | inl eq ↦ ground (arith, lookup-update_entry name function f m)
        | inr (e, eq) ↦ ground (arith, lookup-update_entry name function f m, keeps e)
      ]

  IsCurrent-update_entry :
      (function : String) (f : FunctionVerificationState → FunctionVerificationState)
      → Keeps f
      → (m : Conclusions) → IsCurrent h m
      → IsCurrent h (update_entry function f m)
  unfolding IsCurrent Keeps
  IsCurrent-update_entry function f keeps m current name callee differ e found hash eq =
      let looked = lookup-update_entry name function f m in
      let same = specs_hash_for_function-update_entry function f keeps m callee in
      elim (Option-cases (lookup name m)) [
        | inl missing ↦ absurd (ground arith)
        | inr (d, old) ↦
            let kept = keeps d in
            let tracked = current name callee differ d old hash in
            elim (Bool-cases (function =ˢ name)) [
              | inl it ↦
                  let entry : f d ≡ e = ground arith in
                  let t = tracked (ground arith) in ground arith
              | inr another ↦
                  let entry : d ≡ e = ground arith in let t = tracked (ground arith) in ground arith
            ]
      ]

  -- a new entry has no contract yet, and its absence had none
  specs_hash_for_function-put :
      (function : String) (m : Conclusions)
      → lookup function m ≡ none
      → (name : String)
      → specs_hash_for_function h (put function (empty_conclusion_static function) m) name
        ≡ specs_hash_for_function h m name
  unfolding specs_hash_for_function
  specs_hash_for_function-put function m missing name =
      let put_eq = lookup-put function name (empty_conclusion_static function) m in
      elim (Bool-cases (function =ˢ name)) [
        | inl it ↦ let named = (=ˢ_iff function name).0 it in ground arith
        | inr another ↦ ground arith
      ]

  IsCurrent-put :
      (function : String) (m : Conclusions)
      → lookup function m ≡ none
      → IsCurrent h m
      → IsCurrent h (put function (empty_conclusion_static function) m)
  unfolding IsCurrent lookup
  IsCurrent-put function m missing current name callee differ e found hash eq =
      let put_eq = lookup-put function name (empty_conclusion_static function) m in
      let same = specs_hash_for_function-put function m missing callee in
      elim (Bool-cases (function =ˢ name)) [
        | inl it ↦
            let entry : empty_conclusion_static function ≡ e = ground arith in
            let hashes : e.callee_spec_hashes ≡ [] = ap (λ x. x.callee_spec_hashes) (sym entry) in
            absurd (ground arith)
        | inr another ↦
            let old : lookup name m ≡ some e = ground arith in
            let t = current name callee differ e old hash eq in ground arith
      ]

  IsCurrent-ensure :
      (function : String) (m : Conclusions)
      → IsCurrent h m
      → IsCurrent h (
          if is_some (lookup function m)
          then m
          else put function (empty_conclusion_static function) m)
  IsCurrent-ensure function m current = elim (Option-cases (lookup function m)) [
    | inl missing ↦ rw missing (IsCurrent-put function m missing current)
    | inr (d, there) ↦ rw there current
  ]

  Step-IsCurrent : (m n : Conclusions) → IsCurrent h m → Step h m n → IsCurrent h n
  unfolding on_sandbox_created on_annotation_added on_sandbox_deleted Keeps
  Step-IsCurrent _ _ current (stored u m) = store_conclusion-IsCurrent h u m current
  Step-IsCurrent _ _ current (created function ast_stmt_count m) =
      IsCurrent-update_entry function _ (λ e. (refl, refl, refl)) _
        (IsCurrent-ensure function m current)
  Step-IsCurrent _ _ current (annotated function m) =
      IsCurrent-update_entry function _ (λ e. (refl, refl, refl)) m current
  Step-IsCurrent _ _ current (deleted function m) =
      IsCurrent-update_entry function _ (λ e. (refl, refl, refl)) m current

  Step-AllValid : (m n : Conclusions) → AllValid h m → Step h m n → AllValid h n
  Step-AllValid _ _ every (stored u m) = store_conclusion-AllValid h u m every
  Step-AllValid _ _ every (created function ast_stmt_count m) =
      (sandbox-AllValid h function ast_stmt_count m every).0
  Step-AllValid _ _ every (annotated function m) = (sandbox-AllValid h function none m every).1
  Step-AllValid _ _ every (deleted function m) = (sandbox-AllValid h function none m every).2

  Reached-AllValid : (m : Conclusions) → Reached h m → AllValid h m
  unfolding AllValid
  Reached-AllValid _ start = tt
  Reached-AllValid n (next {m} before step) = Step-AllValid m n (Reached-AllValid m before) step

  Reached-IsCurrent : (m : Conclusions) → Reached h m → IsCurrent h m
  unfolding IsCurrent lookup
  Reached-IsCurrent _ start = λ name callee differ e found hash eq. absurd (ground arith)
  Reached-IsCurrent n (next {m} before step) = Step-IsCurrent m n (Reached-IsCurrent m before) step

  -- In every session that a new one comes to, by storing conclusions, accepted or refused, and by
  -- creating, annotating and deleting sandboxes, each callee that a verified function lists, other than
  -- itself, still has the contract that was recorded for the proof.
  pub Reached-callees_are_current :
      (m : Conclusions)
      → Reached h m
      → (name callee : String) (e : FunctionVerificationState) → lookup name m ≡ some e
      → is_verified e.status ≡ true
      → any (λ c. c =ˢ callee) e.callees ≡ true
      → (name =ˢ callee) ≡ false
      → lookup callee e.callee_spec_hashes ≡ some (specs_hash_for_function h m callee)
  Reached-callees_are_current m reached =
      verified_callees_are_current h m (Reached-AllValid m reached) (Reached-IsCurrent m reached)

  -- In every session that a new one comes to, by storing conclusions, accepted or refused, and by
  -- creating, annotating and deleting sandboxes, a verified function has a summary of at least one
  -- goal, all of them valid, and a receipt that is evidence for that many goals of the function.
  pub Reached-HasProof :
      (m : Conclusions)
      → Reached h m
      → (name : String) (e : FunctionVerificationState) → lookup name m ≡ some e
      → is_verified e.status ≡ true
      → HasProof h e
  Reached-HasProof m reached = verified-HasProof h m (Reached-AllValid m reached)
