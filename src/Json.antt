-- ===== src/Json.antt =====
-- JSON documents as the program reads and builds them: the seven shapes of a value, the typed reads
-- that answer `None` at another shape, and objects that keep the order in which keys came.
pub mod Laws
pub mod Same
use frama_c_mcp.Prelude.{
  ℕ, String, ◌≡◌, Bool, true, false, Option, none, some, List, [], ◌∷◌, not, ◌=ˢ◌, if◌then◌else◌,
}

mutual
  pub data Value : Type 0 where
    null : Value
    boolean : Bool → Value
    number : ℕ → Value  -- a number that fits u64
    other_number : String → Value  -- a negative number or a fraction, by its text
    string : String → Value
    array : Items → Value
    object : Fields → Value

  pub data Items : Type 0 where
    nil : Items
    cons : Value → Items → Items

  pub data Fields : Type 0 where
    end : Fields
    field : String → Value → Fields → Fields

abbrev pub elements : Items → List Value
elements nil = []
elements (cons v vs) = v ∷ elements vs

abbrev of_elements : List Value → Items
of_elements [] = nil
of_elements (v ∷ vs) = cons v (of_elements vs)

abbrev pub entries : Fields → List (String × Value)
entries end = []
entries (field k v fs) = (k, v) ∷ entries fs

abbrev pub of_entries : List (String × Value) → Fields
of_entries [] = end
of_entries ((k, v) ∷ rest) = field k v (of_entries rest)

abbrev pub obj : List (String × Value) → Value
obj fs = object (of_entries fs)

abbrev pub arr : List Value → Value
arr vs = array (of_elements vs)

-- `Map::get`
unfoldable pub find_field : String → Fields → Option Value
find_field k end = none
find_field k (field j v fs) = if j =ˢ k then some v else find_field k fs

-- `Map::insert`: a key that is there keeps its place.
unfoldable pub insert : String → Value → Fields → Fields
insert k v end = field k v end
insert k v (field j w fs) = if j =ˢ k then field j v fs else field j w (insert k v fs)

-- the fields whose key is not `k`, in their order
unfoldable pub without : String → Fields → Fields
without k end = end
without k (field j v fs) = let rest = without k fs in if j =ˢ k then rest else field j v rest

-- `Value::get` with a text
abbrev pub get : Value → String → Option Value
get (object fs) k = find_field k fs
get _ k = none

abbrev pub as_str : Value → Option String
as_str (string s) = some s
as_str _ = none

abbrev pub as_bool : Value → Option Bool
as_bool (boolean b) = some b
as_bool _ = none

abbrev pub as_u64 : Value → Option ℕ
as_u64 (number n) = some n
as_u64 _ = none

abbrev pub as_array : Value → Option (List Value)
as_array (array vs) = some (elements vs)
as_array _ = none

abbrev pub as_object : Value → Option Fields
as_object (object fs) = some fs
as_object _ = none

abbrev pub is_null : Value → Bool
is_null null = true
is_null _ = false

-- `value[key]`, which is null where there is no such field
abbrev pub at : Value → String → Value
at v k = elim (get v k) [ none ↦ null | some w ↦ w ]

abbrev pub and_then {ℓ κ} : {A : Type ℓ} {B : Type κ} → Option A → (A → Option B) → Option B
and_then none f = none
and_then (some a) f = f a

abbrev pub or_else {ℓ} : {A : Type ℓ} → Option A → Option A → Option A
or_else none o = o
or_else (some a) o = some a

abbrev pub unwrap_or {ℓ} : {A : Type ℓ} → Option A → A → A
unwrap_or none d = d
unwrap_or (some a) d = a

abbrev pub is_some {ℓ} : {A : Type ℓ} → Option A → Bool
is_some none = false
is_some (some a) = true

abbrev pub is_some_and {ℓ} : {A : Type ℓ} → Option A → (A → Bool) → Bool
is_some_and none p = false
is_some_and (some a) p = p a

-- the text of a field, `get(key).and_then(as_str)`
abbrev pub get_str : Value → String → Option String
get_str v k = and_then (get v k) as_str

-- `pointer`, at keys of objects
abbrev pub pointer : Value → List String → Option Value
pointer v [] = some v
pointer v (k ∷ ks) = elim (get v k) [ none ↦ none | some w ↦ pointer w ks ]

-- `Some(text) == option`
abbrev pub is_text : Option String → String → Bool
is_text o s = is_some_and o (λ t. t =ˢ s)
