-- ===== src/Coverage/Report/Complete.antt =====
-- What a report with the verdict "complete" has shown.
use frama_c_mcp.Prelude.{
  ℕ, suc, ◌≡◌, refl, sym, ◌∙◌, String, Bool, inl, inr, true, false, not, Option, Option-cases, some,
  List, [], filter_by, length, ==_iff, subst, if◌then◌else◌, arith,
}
use frama_c_mcp.Json.{Value, string, at, as_str, is_text, is_some, find_field}
use frama_c_mcp.Session.Data.{FunctionVerificationState}
use frama_c_mcp.Coverage.{Row, propagate_rounds, propagate_unverified_callees, uncovered_names}
use frama_c_mcp.Coverage.Closed.{propagate_unverified_callees_lem}
use frama_c_mcp.Coverage.Drift.Direct.{IsFaithful-empty}
use frama_c_mcp.Coverage.Profile.{VerificationProfile}
use frama_c_mcp.Coverage.Rows.{Setting, sorted_names, target_rows, is_in}
use frama_c_mcp.Coverage.Report.{is_covered, is_complete, report_of, proof_coverage_report}
use frama_c_mcp.Coverage.Report.Members.{is_in-sorted_names}
use frama_c_mcp.Coverage.Report.Established.{
  all_kept, covered_count_le, propagate_rounds-covered, target_rows-IsEstablished,
  length-target_rows, IsEstablished,
}

verdict_text :
    (b : Bool) → string (if b then "complete" else "incomplete") ≡ string "complete" → b ≡ true
verdict_text true h = refl
verdict_text false h =
    let bad : true ≡ false = subst (λ v. is_text (as_str v) "complete" ≡ false) h refl in
    absurd (ground arith)

complete_verdict :
    (quotient : ℕ → ℕ → Value) (full : Bool)
    (verify_profile : Option (String × VerificationProfile)) (targets elsewhere : List String)
    (rows : List Row)
    → at (report_of quotient full verify_profile targets elsewhere rows) "verdict"
      ≡ string "complete"
    → is_complete targets rows ≡ true
unfolding report_of find_field
complete_verdict quotient full verify_profile targets elsewhere rows h =
    verdict_text (is_complete targets rows) h

is_complete-covered :
    (targets : List String) (rows : List Row)
    → is_complete targets rows ≡ true
    → length (filter_by is_covered rows) ≡ length targets
unfolding is_complete
is_complete-covered targets rows h =
    ground (arith, ==_iff (length (filter_by is_covered rows)) (length targets))

-- When the verdict of a report is "complete", the project defines every target, and the conclusion stored for
-- it is verified with no stale dependency or environment: its receipt names the target, was not narrowed to
-- some goals, passes the target's profile if it has one, and is of the loaded project if one is loaded; and no
-- file of the receipt has another hash now than it records, where it gives a path and a hash and the file can
-- be read.
pub proof_coverage_report-IsEstablished :
    (quotient : ℕ → ℕ → Value) (t : Setting) (full : Bool)
    (targets declared_only defined : List String)
    (conclusions : List (String × FunctionVerificationState)) (function : String) (report : Value)
    → proof_coverage_report quotient t full targets declared_only defined conclusions ≡ some report
    → at report "verdict" ≡ string "complete"
    → is_in function targets ≡ true
    → IsEstablished t defined conclusions function
unfolding proof_coverage_report propagate_unverified_callees
proof_coverage_report-IsEstablished quotient t full targets declared_only defined conclusions
      function report made verdict there =
    let wanted = sorted_names targets in
    let rows = target_rows t defined conclusions [] wanted in
    elim (Option-cases (propagate_rounds (suc (length rows)) (uncovered_names rows) rows)) [
      | inl eq ↦ absurd (ground arith)
      | inr (out, eq) ↦
          let complete : is_complete wanted out ≡ true =
            complete_verdict quotient full t.verify_profile wanted
              (filter_by
                (λ name. not (is_in name (filter_by (λ name. not (is_in name defined)) wanted)))
                (sorted_names declared_only))
              out (subst (λ r. at r "verdict" ≡ string "complete") (ground arith) verdict) in
          let (len, kept) =
            propagate_rounds-covered (suc (length rows)) (uncovered_names rows) rows out eq in
          let counted = is_complete-covered wanted out complete in
          let covered =
            all_kept is_covered out
              (counted ∙ sym (length-target_rows t defined conclusions [] wanted) ∙ sym len) in
          target_rows-IsEstablished t defined conclusions [] wanted function
            (IsFaithful-empty t.host) (kept covered) (is_in-sorted_names function targets ∙ there)
    ]

-- A report is made, within the rounds that it is given, whatever the targets, the definitions and the conclusions are.
proof_coverage_report_total :
    (quotient : ℕ → ℕ → Value) (t : Setting) (full : Bool)
    (targets declared_only defined : List String)
    (conclusions : List (String × FunctionVerificationState))
    → is_some (proof_coverage_report quotient t full targets declared_only defined conclusions)
      ≡ true
unfolding proof_coverage_report
proof_coverage_report_total quotient t full targets declared_only defined conclusions =
    let rows = target_rows t defined conclusions [] (sorted_names targets) in
    let small = covered_count_le rows in
    let (out, eq, clear) =
      propagate_unverified_callees_lem (suc (length rows)) rows (omega arith) in
    rw eq
