-- ===== src/Coverage/Report/Established.antt =====
-- What the covered rows of a report rest on.
use frama_c_mcp.Prelude.{
  ℕ, zero, suc, ◌≤◌, ◌≡◌, refl, sym, ap, ◌∙◌, String, Bool, Bool-cases, inl, inr, true, false,
  Option-cases, none, some, List, [], ◌∷◌, ◌++◌, all, filter_by, length, is_empty, map, ◌=ˢ◌,
  =ˢ_iff, lookup, subst, arith,
}
use frama_c_mcp.Session.Data.{FunctionVerificationState}
use frama_c_mcp.Coverage.{Row, is_newly, mark_row, newly_names, propagate_rounds}
use frama_c_mcp.Coverage.Closed.{covered_count}
use frama_c_mcp.Coverage.Drift.{is_stale, SourceDrift, no_drift, SourceDigests, receipt_files}
use frama_c_mcp.Coverage.Drift.Direct.{drift_read, IsFaithful, receipt_source_drift_lem}
use frama_c_mcp.Coverage.Drift.Unchanged.{is_unchanged, drift_read-is_unchanged}
use frama_c_mcp.Json.{Value}
use frama_c_mcp.Coverage.Reason.{row_reason}
use frama_c_mcp.Coverage.Reason.Current.{IsCurrentProof, row_reason-IsCurrentProof}
use frama_c_mcp.Coverage.Rows.{
  Setting, not_started, undefined_row, entry_drift, entry_row, target_row, target_rows, is_in,
}
use frama_c_mcp.Coverage.Report.{is_covered}

module _ {A : Type 0} (p : A → Bool) where
  length-filter_by_le : (xs : List A) → length (filter_by p xs) ≤ length xs
  length-filter_by_le [] = omega arith
  length-filter_by_le (x ∷ xs) = ground (arith, length-filter_by_le xs)

  pub all_kept : (xs : List A) → length (filter_by p xs) ≡ length xs → all p xs ≡ true
  all_kept [] h = refl
  all_kept (x ∷ xs) h = elim (Bool-cases (p x)) [
    | inl kept ↦ ground (arith, all_kept xs)
    | inr dropped ↦ absurd (ground (arith, length-filter_by_le xs))
  ]

length-map : {A B : Type 0} (f : A → B) (xs : List A) → length (map f xs) ≡ length xs
length-map f [] = refl
length-map f (x ∷ xs) = ground (arith, length-map f xs)

pub covered_count_le : (rows : List Row) → covered_count rows ≤ length rows
unfolding covered_count
covered_count_le [] = omega arith
covered_count_le (row ∷ rows) = ground (arith, covered_count_le rows)

-- A row that is covered after a round was covered before it.
still_covered :
    (uncovered : List String) (rows : List Row)
    → all is_covered (map (mark_row uncovered) rows) ≡ true
    → all is_covered rows ≡ true
unfolding mark_row
still_covered uncovered [] h = refl
still_covered uncovered (row ∷ rows) h = elim (Bool-cases (is_newly uncovered row)) [
  | inl marked ↦ absurd (ground arith)
  | inr same ↦ ground (arith, still_covered uncovered rows)
]

pub propagate_rounds-covered :
    (fuel : ℕ) (uncovered : List String) (rows out : List Row)
    → propagate_rounds fuel uncovered rows ≡ some out
    → (length out ≡ length rows) × (all is_covered out ≡ true → all is_covered rows ≡ true)
unfolding propagate_rounds
propagate_rounds-covered zero uncovered rows out eq = absurd (ground arith)
propagate_rounds-covered (suc fuel) uncovered rows out eq =
    elim (Bool-cases (is_empty (newly_names uncovered rows))) [
      | inl done ↦
          let same : rows ≡ out = ground arith in
          (ap length (sym same), λ h. subst (λ r. all is_covered r ≡ true) (sym same) h)
      | inr more ↦
          let (len, kept) =
            propagate_rounds-covered fuel (newly_names uncovered rows ++ uncovered)
              (map (mark_row uncovered) rows) out (ground arith) in
          (len ∙ length-map (mark_row uncovered) rows, λ h. still_covered uncovered rows (kept h))
    ]

-- the drift of a conclusion's receipt when every file is read
abbrev drift_now : Setting → FunctionVerificationState → SourceDrift
drift_now t entry = elim entry.proof_receipt [
  | none ↦ no_drift
  | some receipt ↦ drift_read t.host (receipt_files receipt)
]

entry_drift-IsFaithful :
    (t : Setting) (digests : SourceDigests) (entry : FunctionVerificationState)
    → IsFaithful t.host digests
    → ((entry_drift t.host digests entry).0 ≡ drift_now t entry)
      × IsFaithful t.host (entry_drift t.host digests entry).1
unfolding entry_drift
entry_drift-IsFaithful t digests entry faithful = elim (Option-cases entry.proof_receipt) [
  | inl eq ↦ rw (eq, entry_drift, drift_now) (refl, faithful)
  | inr (receipt, eq) ↦
      rw (eq, entry_drift, drift_now) (receipt_source_drift_lem t.host digests receipt faithful)
]

-- A target that the project defines and whose stored conclusion is a current proof of it, over files that,
-- where they can be compared, have not changed.
pub record IsEstablished (t : Setting) (defined : List String)
    (conclusions : List (String × FunctionVerificationState)) (function : String) : Type 0 where
  pub defines : is_in function defined ≡ true
  pub entry : FunctionVerificationState
  pub stored : lookup function conclusions ≡ some entry
  pub current : IsCurrentProof t.host t.digest entry t.verify_profile (drift_now t entry) t.loaded
  pub unchanged : all (is_unchanged t.host) (receipt_files current.receipt) ≡ true

current_files :
    (t : Setting) (entry : FunctionVerificationState) (receipt : Value)
    → entry.proof_receipt ≡ some receipt
    → is_stale (drift_now t entry) ≡ false
    → all (is_unchanged t.host) (receipt_files receipt) ≡ true
current_files t entry receipt filed fresh =
    drift_read-is_unchanged t.host (receipt_files receipt) (rw (filed, drift_now) at fresh)

target_row-IsEstablished :
    (t : Setting) (defined : List String) (conclusions : List (String × FunctionVerificationState))
    (digests : SourceDigests) (function : String)
    → IsFaithful t.host digests
    → is_covered (target_row t defined conclusions digests function).0 ≡ true
    → IsEstablished t defined conclusions function
unfolding target_row undefined_row not_started entry_row
target_row-IsEstablished t defined conclusions digests function faithful covered =
    elim (Bool-cases (is_in function defined)) [
      | inr missing ↦ absurd (ground arith)
      | inl there ↦ elim (Option-cases (lookup function conclusions)) [
        | inl eq ↦ absurd (ground arith)
        | inr (entry, eq) ↦
            let drift = (entry_drift-IsFaithful t digests entry faithful).0 in
            let none_given : row_reason t.host t.digest entry t.verify_profile
                  (entry_drift t.host digests entry).0 t.loaded
                ≡ none =
              ground arith in
            let current =
              row_reason-IsCurrentProof t.host t.digest entry t.verify_profile (drift_now t entry)
                t.loaded
                (subst (λ d. row_reason t.host t.digest entry t.verify_profile d t.loaded ≡ none)
                  drift none_given) in
            record {
              defines = there;
              entry = entry;
              stored = eq;
              current = current;
              unchanged = current_files t entry current.receipt current.filed current.sources;
            }
      ]
    ]

target_row-IsFaithful :
    (t : Setting) (defined : List String) (conclusions : List (String × FunctionVerificationState))
    (digests : SourceDigests) (function : String)
    → IsFaithful t.host digests
    → IsFaithful t.host (target_row t defined conclusions digests function).1
unfolding target_row
target_row-IsFaithful t defined conclusions digests function faithful =
    elim (Bool-cases (is_in function defined)) [
      | inr missing ↦ rw (missing, target_row) faithful
      | inl there ↦ elim (Option-cases (lookup function conclusions)) [
        | inl eq ↦ rw (there, eq, target_row) faithful
        | inr (entry, eq) ↦
            rw (there, eq, target_row) (entry_drift-IsFaithful t digests entry faithful).1
      ]
    ]

pub target_rows-IsEstablished :
    (t : Setting) (defined : List String) (conclusions : List (String × FunctionVerificationState))
    (digests : SourceDigests) (functions : List String) (function : String)
    → IsFaithful t.host digests
    → all is_covered (target_rows t defined conclusions digests functions) ≡ true
    → is_in function functions ≡ true
    → IsEstablished t defined conclusions function
unfolding target_rows
target_rows-IsEstablished t defined conclusions digests [] function faithful covered there =
    absurd (ground arith)
target_rows-IsEstablished t defined conclusions digests (g ∷ gs) function faithful covered there =
    let row = target_row t defined conclusions digests g in
    let here : is_covered row.0 ≡ true = ground arith in
    let rest : all is_covered (target_rows t defined conclusions row.1 gs) ≡ true = ground arith in
    elim (Bool-cases (g =ˢ function)) [
      | inl same ↦
          subst (IsEstablished t defined conclusions) ((=ˢ_iff g function).0 same)
            (target_row-IsEstablished t defined conclusions digests g faithful here)
      | inr other ↦
          target_rows-IsEstablished t defined conclusions row.1 gs function
            (target_row-IsFaithful t defined conclusions digests g faithful) rest (ground arith)
    ]

pub length-target_rows :
    (t : Setting) (defined : List String) (conclusions : List (String × FunctionVerificationState))
    (digests : SourceDigests) (functions : List String)
    → length (target_rows t defined conclusions digests functions) ≡ length functions
unfolding target_rows
length-target_rows t defined conclusions digests [] = refl
length-target_rows t defined conclusions digests (g ∷ gs) =
    ap suc
      (length-target_rows t defined conclusions (target_row t defined conclusions digests g).1 gs)
