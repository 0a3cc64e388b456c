-- ===== src/Wp/Failure.antt =====
-- What a failed goal's status and text say of the failure (src/mcp/wpclass.rs, `classify_wp_goal`,
-- `classify_failure_reason` and `text_has_word`). The pattern of labels is the regex crate's, so what it finds
-- in a name is an argument.
pub mod Order
use Prim.Native.String.{slice}
use frama_c_mcp.Prelude.{
  String, Bool, true, false, ◌&&◌, ◌||◌, not, Option, none, some, List, [], ◌∷◌, ◌++◌, any, ◌=ˢ◌,
  contains, lower, is_alnum, cons_first, if◌then◌else◌,
}
use frama_c_mcp.Json.{Value, boolean, string, get_str, unwrap_or, is_some_and}
use frama_c_mcp.Status.{status_is_timeout}
use frama_c_mcp.Check.Target.{goal_id_after_owner, is_terminates_goal}

-- whether a text holds one of several
abbrev has_one : String → List String → Bool
has_one text needles = any (contains text) needles

-- A goal's kind, and the label that its name carries. `hash_label` is the label that the pattern finds.
unfoldable pub classify_wp_goal : (String → Option String) → Value → String × Option String
classify_wp_goal hash_label goal =
    let name = unwrap_or (get_str goal "name") "" in
    let text = lower name in
    if is_some_and (goal_id_after_owner goal) is_terminates_goal
    then ("terminates", none)
    else if has_one text
        ("signed_overflow" ∷ "unsigned_overflow" ∷ "integer_overflow" ∷ "downcast" ∷ [])
    then ("rte_overflow", none)
    else if has_one text ("index_in_bound" ∷ "index_bound" ∷ "array_bound" ∷ [])
    then ("rte_bound", none)
    else if has_one text ("division_by_zero" ∷ "div_by_zero" ∷ "modulo" ∷ [])
    then ("rte_division", none)
    else if has_one text ("mem_access" ∷ "initialization" ∷ "dangling" ∷ "pointer_validity" ∷ [])
    then ("rte_pointer", none)
    else if contains text "shift"
    then ("rte_shift", none)
    else elim (hash_label name) [
      | some label ↦ ("spec", some label)
      | none ↦
          if has_one text ("assertion" ∷ "user assert" ∷ [])
          then ("user_assert", none)
          else ("spec", none)
    ]

-- The category, how sure it is, and what to do.
pub record Advice : Type 0 where
  pub category : String
  pub confidence : String
  pub reason : String

abbrev some_advice : String → String → String → Advice
some_advice category confidence reason = record {
  category = category;
  confidence = confidence;
  reason = reason;
}

-- the parts between characters that are neither letters nor digits
unfoldable pub alnum_parts : String → List String
alnum_parts String.[] = "" ∷ []
alnum_parts (String.◌∷◌ c s) =
    let rest = alnum_parts s in if is_alnum c then cons_first c rest else "" ∷ rest

unfoldable pub text_has_word : String → String → Bool
text_has_word text word = any (λ part. part =ˢ word) (alnum_parts text)

abbrev pub is_rte : String → Bool
is_rte kind = slice kind 0 4 =ˢ "rte_"

unfoldable pub timeout_reason : String → String
timeout_reason kind =
    if is_rte kind
    then "Set retry_unproved to tell a slow goal from an unprovable one: it re-runs at double the budget and reports which flip. If none flip, more time is not the fix. This one is a runtime-error check, so read the goal's own predicate rather than its name: the name's trailing number counts siblings from one statement and names none of them, while the predicate says which access is open. context {want: [\"rte_obligations\"]} adds the drafted requires, which no goal carries, and is the fallback when this goal carries no predicate either."
    else "Set retry_unproved to tell a slow goal from an unprovable one: it re-runs at double the budget and reports which flip. If none flip, more time is not the fix -- read the VC and supply the missing fact."

-- what the text of a goal says, past its setup
unfoldable pub contract_advice : String → String → String → Advice × (String × Value)
contract_advice status name text =
    if has_one text ("unsupported" ∷ "unbound" ∷ "unknown predicate" ∷ "unknown logic" ∷ [])
    then (
      some_advice "unsupported_predicate" "medium"
          "Two different faults share this branch. If the name is unbound, it has no definition in scope: declare the predicate or logic function, or include the header that does. If WP could not encode the construct, replace it with one the memory model handles: a quantifier over an integer range rather than over a set, an explicit valid_read over the range you index, or a named predicate whose definition is first-order. Under Typed+nocast a pointer cast is the usual culprit.",
      ("goal_text", string name),
    )
    else if contains text "call" && contains text "requires"
    then (
      some_advice "callee_requires_too_strict" "high"
          "The callee's requires is not established at this call. Either the caller carries the fact to the call site, as its own requires or an assert before the call, or the callee asks for more than it needs and its requires should be weakened.",
      ("goal_text", string name),
    )
    else if contains text "behavior" && has_one text ("complete" ∷ "disjoint" ∷ "partition" ∷ [])
    then (
      some_advice "incomplete_behavior_partition" "medium"
          "The behaviors do not cover the input space the way the clauses claim. Add the behavior for the case nothing assumes, or drop the complete behaviors clause that promises a partition the assumes do not form. Disjointness fails the other way: two assumes overlap and one has to be narrowed.",
      ("goal_text", string name),
    )
    else if has_one text ("call" ∷ "callee" ∷ []) && has_one text ("ensures" ∷ "post" ∷ [])
    then (
      some_advice "callee_contract_too_weak" "medium"
          "The callee's ensures does not say enough for the caller's goal. Strengthen the callee contract to state what it actually establishes and re-prove the callee; assuming the fact in the caller would be assuming what nothing checks.",
      ("goal_text", string name),
    )
    else if contains text "loop" && has_one text ("assigns" ∷ "frame" ∷ [])
    then (
      some_advice "weak_loop_assigns" "medium"
          "The loop writes something its assigns does not list, so WP cannot tell what survives the loop. List every location the body writes, the induction variable included, and nothing more. Both directions cost: WP havocs everything the clause lists, so a location named but not written loses its facts across the loop just as one written but not named does.",
      ("goal_text", string name),
    )
    else if contains text "loop" && text_has_word text "variant"
    then (
      some_advice "weak_loop_variant" "medium"
          "The variant must be an integer expression that stays non-negative and strictly decreases on every iteration. Both halves fail the same way here: an expression that can go negative, and one that decreases on only some paths through the body.",
      ("goal_text", string name),
    )
    else if contains text "loop" && contains text "invariant"
    then (
      some_advice "weak_loop_invariant" "medium"
          "A loop invariant has to hold on entry and survive the body, and the two fail differently. Failing on entry means it claims something the code has not done yet. Failing on preservation means it is too weak to imply itself after one iteration, and it usually needs the missing conjunct about what the body just did.",
      ("goal_text", string name),
    )
    else if has_one text ("assigns" ∷ "frame" ∷ [])
    then (
      some_advice "bad_assigns" "medium"
          "The assigns clause and the code disagree about what is written. Either the function writes a location the clause omits, which loses every fact about it, or the clause lists one the function leaves alone, which weakens every caller for nothing.",
      ("goal_text", string name),
    )
    else if has_one text ("post" ∷ "ensures" ∷ [])
    then (
      some_advice "weak_ensures" "medium"
          "The postcondition does not follow from what the body establishes. Work back from the VC: either the code does not achieve the claim, or the facts that would prove it were lost at a loop boundary or a call, and the invariant or the callee contract is where they have to be reinstated.",
      ("goal_text", string name),
    )
    else if has_one text ("precondition" ∷ "requires" ∷ [])
    then (
      some_advice "missing_requires" "medium"
          "The proof needs a fact no caller is obliged to supply. Add it as a requires so callers carry the obligation, or establish it in the body if the function can. Assuming it silently is the one option that proves nothing.",
      ("goal_text", string name),
    )
    else (
      some_advice "prover_unknown" "low" "Inspect the VC details before changing annotations.",
      ("normalized_status", string status),
    )

-- faults of the setup and of the backend come first, then the kind
unfoldable pub text_advice : String → String → String → String → Advice × (String × Value)
text_advice status kind name text =
    if contains text "prover"
      && has_one text ("not found" ∷ "unknown" ∷ "missing" ∷ "not available" ∷ [])
    then (
      some_advice "missing_prover" "high"
          "Inspect capabilities and prover setup before changing annotations.",
      ("goal_text", string name),
    )
    else if contains text "why3"
        && has_one text
            ("config" ∷ "configuration" ∷ "not configured" ∷ "no prover" ∷ "not found" ∷ [])
    then (
      some_advice "missing_why3_config" "high"
          "Run self_check and configure Why3 provers before changing annotations.",
      ("goal_text", string name),
    )
    else if has_one text ("rejected" ∷ "reject" ∷ [])
    then (
      some_advice "request_rejected" "high"
          "Run self_check and inspect Frama-C request compatibility before changing annotations.",
      ("goal_text", string name),
    )
    else if status =ˢ "failed"
        || has_one text
            ("internal" ∷ "exception" ∷ "rejected" ∷ "server error" ∷ "plugin error" ∷ [])
    then (
      some_advice "internal_error" "high"
          "No prover returned a verdict, so this is not evidence that the C code or ACSL is wrong. A goal record says only FAILED; the reason is on the message stream, which check reports as wp_backend_diagnosis and context {want: [\"messages\"]} returns directly. If that names a Why3 anomaly, try the other memory model before touching the annotation: on Frama-C 33 a pointer cast reaching the goal aborts Why3 under Typed+nocast and proves under Typed+cast.",
      ("normalized_status", string status),
    )
    else if is_rte kind
    then (
      some_advice "rte" "high"
          "The obligation is a runtime-error check, so the fix is a fact the caller must guarantee or the code must establish: the requires that rules the value out, an assert that carries the fact to this point, or a loop invariant that keeps the index in range. Strengthening the postcondition will not close it. Read the goal's own predicate to choose which: the goal usually carries one, and the open access then reads as \\valid(p + i) directly. Do not work from the goal name, which cannot distinguish siblings: the trailing number in mem_access_7 counts checks generated from one statement and names none of them. Guessing an invariant from the name costs a proof run per guess and does not converge. context {want: [\"rte_obligations\"]} covers both gaps: it drafts the requires, which no goal carries, and it is the fallback for the goals whose property row supplied no predicate to copy.",
      ("goal_kind", string kind),
    )
    else contract_advice status name text

abbrev pub timed_out : String → String → Bool
timed_out status raw = status_is_timeout status || status_is_timeout raw

-- a timeout before anything that the text says
unfoldable pub first_advice : String → String → String → String → String → Advice × (String × Value)
unfolding timeout_reason
first_advice status raw kind name text =
    if kind =ˢ "terminates" && timed_out status raw
    then (
      some_advice "termination_unproved" "high"
          "This is the function's terminates obligation, which Frama-C 33 generates for the default \"terminates \\true\" as if it were written, and a longer timeout will not close it. One of three things is missing: a loop variant on a loop in the body, a decreases clause on a recursive function (WP warns \"Missing decreases clause\"), or a terminates clause on a callee that may not return. Add the measure, or state the condition under which the function terminates as its own terminates clause.",
      ("goal_kind", string kind),
    )
    else if timed_out status raw
    then (some_advice "timeout" "high" (timeout_reason kind), ("normalized_status", string status))
    else text_advice status kind name text

-- The advice, and the evidence pushed for it.
unfoldable pub classify_failure_reason :
    String → String → String → String → String → Bool → Advice × List (String × Value)
classify_failure_reason status raw kind name text from_cache =
    let found = first_advice status raw kind name text in
    if from_cache
    then (record (found.0) { confidence = "low" }, found.1 ∷ ("from_cache", boolean true) ∷ [])
    else (found.0, found.1 ∷ [])
