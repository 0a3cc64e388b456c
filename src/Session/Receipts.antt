-- ===== src/Session/Receipts.antt =====
-- The receipts that a session remembers (src/state.rs, `remember_receipt` to `receipt_body`), oldest
-- first.
use frama_c_mcp.Prelude.{
  ℕ, String, ◌≡◌, ◌≤◌, refl, Bool, Bool-cases, inl, inr, false, Option, none, some, List, [], ◌∷◌,
  ◌++◌, any, drop, length, length-append, length-drop, ◌=ˢ◌, =ˢ_refl, leb, if◌then◌else◌, arith,
}
use frama_c_mcp.Json.{Value, get, as_array, and_then, is_null}

abbrev pub Seen : Type 0
Seen = List (String × Value)

abbrev seen_receipt_limit : ℕ
seen_receipt_limit = 32

unfoldable pub has_seen : String → Seen → Bool
has_seen sha256 seen = any (λ (entry : String × Value). entry.0 =ˢ sha256) seen

-- `pop_front` is `drop 1`.
unfoldable pub remember_receipt : String → Value → Seen → Seen
unfolding has_seen
remember_receipt sha256 receipt seen =
    if has_seen sha256 seen
    then seen
    else (if leb seen_receipt_limit (length seen) then drop 1 seen else seen)
      ++ (sha256, receipt) ∷ []

-- `find` over the receipts
find_receipt : String → Seen → Option Value
find_receipt sha256 [] = none
find_receipt sha256 ((k, receipt) ∷ seen) =
    if k =ˢ sha256 then some receipt else find_receipt sha256 seen

unfoldable pub receipt_body : String → Seen → Option Value
unfolding find_receipt
receipt_body sha256 seen =
    and_then (find_receipt sha256 seen) (λ receipt. if is_null receipt then none else some receipt)

unfoldable pub receipt_goals : String → Seen → Option (List Value)
unfolding receipt_body
receipt_goals sha256 seen =
    and_then (receipt_body sha256 seen) (λ receipt. and_then (get receipt "goals") as_array)

-- However many are remembered, no more than the limit are kept.
length-remember_receipt :
    (sha256 : String) (receipt : Value) (seen : Seen)
    → length seen ≤ seen_receipt_limit
    → length (remember_receipt sha256 receipt seen) ≤ seen_receipt_limit
unfolding remember_receipt
length-remember_receipt sha256 receipt seen small = ground (
  arith,
  length-append seen ((sha256, receipt) ∷ []),
  length-drop 1 seen,
  length-append (drop 1 seen) ((sha256, receipt) ∷ []),
)

find_receipt-append :
    (sha256 : String) (receipt : Value) (seen : Seen)
    → has_seen sha256 seen ≡ false
    → find_receipt sha256 (seen ++ (sha256, receipt) ∷ []) ≡ some receipt
unfolding find_receipt has_seen
find_receipt-append sha256 receipt [] new = ground (arith, =ˢ_refl sha256)
find_receipt-append sha256 receipt ((k, r) ∷ seen) new =
    ground (arith, find_receipt-append sha256 receipt seen)

has_seen-drop :
    (sha256 : String) (seen : Seen)
    → has_seen sha256 seen ≡ false
    → has_seen sha256 (drop 1 seen) ≡ false
unfolding has_seen
has_seen-drop sha256 [] new = refl
has_seen-drop sha256 (entry ∷ seen) new = ground arith

-- A receipt that is not null can be read back right after it was remembered: its own body under a new
-- digest, and the body that was there under one already seen.
pub receipt_body-remember_receipt :
    (sha256 : String) (receipt : Value) (seen : Seen)
    → is_null receipt ≡ false
    → receipt_body sha256 (remember_receipt sha256 receipt seen)
      ≡ (if has_seen sha256 seen then receipt_body sha256 seen else some receipt)
unfolding receipt_body remember_receipt
receipt_body-remember_receipt sha256 receipt seen some_body =
    elim (Bool-cases (has_seen sha256 seen)) [
      | inl old ↦ ground arith
      | inr new ↦ ground (
        arith,
        find_receipt-append sha256 receipt seen new,
        find_receipt-append sha256 receipt (drop 1 seen) (has_seen-drop sha256 seen new),
      )
    ]
