-- ===== src/Wp/Failure/Order.antt =====
-- The order of the tests is a precedence.
use frama_c_mcp.Prelude.{
  not, ap, ◌≡◌, refl, String, Bool, true, false, ◌&&◌, ◌||◌, [], ◌∷◌, ◌=ˢ◌, contains, if◌then◌else◌,
}
use frama_c_mcp.Json.{Value}
use frama_c_mcp.Wp.Failure.{
  Advice, timed_out, contract_advice, text_advice, first_advice, classify_failure_reason,
  text_has_word, is_rte, has_one,
}

abbrev is_category : String → Advice × (String × Value) → Bool
is_category category found = found.0.category =ˢ category

-- the advice does not speak of time
data NoTime (found : Advice × (String × Value)) : Type 0 where
  no_time :
      is_category "timeout" found ≡ false
      → is_category "termination_unproved" found ≡ false
      → NoTime found

branch :
    (b : Bool) (x y : Advice × (String × Value)) → NoTime x → NoTime y → NoTime (if b then x else y)
branch true x y p q = p
branch false x y p q = q

contract-NoTime : (status name text : String) → NoTime (contract_advice status name text)
unfolding contract_advice
contract-NoTime status name text =
    branch (has_one text ("unsupported" ∷ "unbound" ∷ "unknown predicate" ∷ "unknown logic" ∷ [])) _
      _ (no_time refl refl)
      (branch (contains text "call" && contains text "requires") _ _ (no_time refl refl) (
        branch
          (contains text "behavior" && has_one text ("complete" ∷ "disjoint" ∷ "partition" ∷ [])) _
          _ (no_time refl refl)
          (branch (has_one text ("call" ∷ "callee" ∷ []) && has_one text ("ensures" ∷ "post" ∷ []))
            _ _ (no_time refl refl)
            (branch (contains text "loop" && has_one text ("assigns" ∷ "frame" ∷ [])) _ _
              (no_time refl refl)
              (branch (contains text "loop" && text_has_word text "variant") _ _ (no_time refl refl)
                (branch (contains text "loop" && contains text "invariant") _ _ (no_time refl refl)
                  (branch (has_one text ("assigns" ∷ "frame" ∷ [])) _ _ (no_time refl refl) (
                    branch (has_one text ("post" ∷ "ensures" ∷ [])) _ _ (no_time refl refl) (
                      branch (has_one text ("precondition" ∷ "requires" ∷ [])) _ _
                        (no_time refl refl) (no_time refl refl))))))))))

text-NoTime : (status kind name text : String) → NoTime (text_advice status kind name text)
unfolding text_advice
text-NoTime status kind name text =
    branch
      (contains text "prover"
        && has_one text ("not found" ∷ "unknown" ∷ "missing" ∷ "not available" ∷ []))
      _ _ (no_time refl refl)
      (branch
        (contains text "why3"
          && has_one text
              ("config" ∷ "configuration" ∷ "not configured" ∷ "no prover" ∷ "not found" ∷ []))
        _ _ (no_time refl refl)
        (branch (has_one text ("rejected" ∷ "reject" ∷ [])) _ _ (no_time refl refl) (
          branch
            (status =ˢ "failed"
              || has_one text
                  ("internal" ∷ "exception" ∷ "rejected" ∷ "server error" ∷ "plugin error" ∷ []))
            _ _ (no_time refl refl)
            (branch (is_rte kind) _ _ (no_time refl refl) (contract-NoTime status name text)))))

-- the first two branches speak of time, each in its own category
time_first :
    (a t : Bool) (x y z : Advice × (String × Value))
    → x.0.category ≡ "termination_unproved"
    → y.0.category ≡ "timeout"
    → NoTime z
    → let found = if a && t then x else if t then y else z in
      (is_category "termination_unproved" found ≡ (a && t))
      × (is_category "timeout" found ≡ (not a && t))
time_first true true x y z p q r =
    (ap (λ c. c =ˢ "termination_unproved") p, ap (λ c. c =ˢ "timeout") p)
time_first false true x y z p q r =
    (ap (λ c. c =ˢ "termination_unproved") q, ap (λ c. c =ˢ "timeout") q)
time_first true false x y z p q (no_time n m) = (m, n)
time_first false false x y z p q (no_time n m) = (m, n)

-- Whatever the text of the goal says and wherever its verdict came from: the category is that of a missing
-- measure exactly when a goal of termination timed out, and a timeout exactly when another goal did.
pub classify_failure_reason_lem :
    (status raw kind name text : String) (from_cache : Bool)
    → (((classify_failure_reason status raw kind name text from_cache).0.category
          =ˢ "termination_unproved")
        ≡ (kind =ˢ "terminates" && timed_out status raw))
      × (((classify_failure_reason status raw kind name text from_cache).0.category =ˢ "timeout")
          ≡ (not (kind =ˢ "terminates") && timed_out status raw))
unfolding classify_failure_reason first_advice
classify_failure_reason_lem status raw kind name text true =
    time_first (kind =ˢ "terminates") (timed_out status raw) _ _ _ refl refl
      (text-NoTime status kind name text)
classify_failure_reason_lem status raw kind name text false =
    time_first (kind =ˢ "terminates") (timed_out status raw) _ _ _ refl refl
      (text-NoTime status kind name text)
