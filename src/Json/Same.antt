-- ===== src/Json/Same.antt =====
-- Equality of JSON values: of two objects whatever the order of their keys.
use frama_c_mcp.Prelude.{
  ℕ, suc, ◌≡◌, refl, Bool, true, false, ◌&&◌, none, some, [], ◌∷◌, ◌==◌, ◌=ˢ◌,
}
use frama_c_mcp.Json.{
  Value, null, boolean, number, other_number, string, array, object, Items, nil, cons, Fields, end,
  field, find_field, obj,
}

abbrev field_count : Fields → ℕ
field_count end = 0
field_count (field k v fs) = suc (field_count fs)

abbrev same_bool : Bool → Bool → Bool
same_bool true b = b
same_bool false true = false
same_bool false false = true

unfoldable mutual
  pub same_value : Value → Value → Bool
  same_value null null = true
  same_value (boolean a) (boolean b) = same_bool a b
  same_value (number m) (number n) = m == n
  same_value (other_number s) (other_number t) = s =ˢ t
  same_value (string s) (string t) = s =ˢ t
  same_value (array vs) (array ws) = same_items vs ws
  same_value (object fs) (object gs) = field_count fs == field_count gs && within fs gs
  same_value _ _ = false

  same_items : Items → Items → Bool
  same_items nil nil = true
  same_items (cons v vs) (cons w ws) = same_value v w && same_items vs ws
  same_items _ _ = false

  -- every field is among the others, with the same value
  within : Fields → Fields → Bool
  within end gs = true
  within (field k v fs) gs = elim (find_field k gs) [
    | none ↦ false
    | some w ↦ same_value v w && within fs gs
  ]

order_of_keys_is_no_matter :
    same_value (obj (("a", number 1) ∷ ("b", null) ∷ [])) (obj (("b", null) ∷ ("a", number 1) ∷ []))
    ≡ true
unfolding same_value find_field
order_of_keys_is_no_matter = refl
