-- ===== src/Coverage/Profile/Parse.antt =====
-- Reading a map of proof targets (src/state.rs, `parse_verification_profiles`). `decode` reads one target as
-- the derived `Deserialize` does; what it refuses is its text.
use Prim.Native.Nat.{Ordering}
use Prim.Native.String.{compare}
use frama_c_mcp.Prelude.{
  ◌≡◌, refl, subst, ◌⊎◌, String, Bool, Bool-cases, inl, inr, true, false, ◌&&◌, ◌||◌, not, Option,
  Option-cases, none, some, List, [], ◌∷◌, all, is_empty, is_empty_text, trim, ◌==◌, Result, ok,
  err, if◌then◌else◌, arith,
}
use frama_c_mcp.Json.{Value, null, boolean, number, other_number, string, array, object, entries}
use frama_c_mcp.Coverage.Profile.{VerificationProfile}

Result-cases : {E A : Type 0} (r : Result E A) → ((a : A) × (r ≡ ok a)) ⊎ ((e : E) × (r ≡ err e))
Result-cases (ok a) = inl (a, refl)
Result-cases (err e) = inr (e, refl)

pub data ProfileError : Type 0 where
  not_an_object : String → ProfileError
  no_profiles : ProfileError
  undecodable : String → String → ProfileError
  floor_of_zero : String → ProfileError
  blank_entry : String → String → ProfileError
  matches_nothing : String → ProfileError

-- what the refusal of a document calls its shape
abbrev shape_of : Value → String
shape_of null = "null"
shape_of (boolean b) = "a boolean"
shape_of (number n) = "a number"
shape_of (other_number s) = "a number"
shape_of (string s) = "a string"
shape_of (array vs) = "an array"
shape_of (object fs) = "an object"

-- the entries trimmed, and nothing where one is blank
unfoldable pub trim_all : List String → Option (List String)
trim_all [] = some []
trim_all (s ∷ ss) =
    let rest = trim_all ss in
    if is_empty_text (trim s)
    then none
    else elim rest [ none ↦ none | some ts ↦ some (trim s ∷ ts) ]

abbrev is_zero_floor : VerificationProfile → Bool
is_zero_floor profile = elim profile.min_goals [ none ↦ false | some n ↦ n == 0 ]

-- the tests of one target, in their order
unfoldable pub check_profile :
    String → VerificationProfile → Result ProfileError VerificationProfile
check_profile name profile =
    if is_zero_floor profile then err (floor_of_zero name) else elim (trim_all profile.functions) [
      | none ↦ err (blank_entry name "functions")
      | some functions ↦ elim (trim_all profile.provers) [
        | none ↦ err (blank_entry name "provers")
        | some provers ↦ elim (trim_all profile.build_gates) [
          | none ↦ err (blank_entry name "build_gates")
          | some build_gates ↦
              if is_empty functions && is_empty profile.sources
              then err (matches_nothing name)
              else ok (record profile {
                functions = functions;
                provers = provers;
                build_gates = build_gates;
              })
        ]
      ]
    ]

-- `BTreeMap::insert`, as a list in the order of its keys
unfoldable pub insert_profile :
    String
    → VerificationProfile
    → List (String × VerificationProfile)
    → List (String × VerificationProfile)
insert_profile k v [] = (k, v) ∷ []
insert_profile k v ((j, w) ∷ m) =
    let rest = insert_profile k v m in
    elim (compare k j) [
      | Ordering.lt ↦ (k, v) ∷ (j, w) ∷ m
      | Ordering.eq ↦ (j, v) ∷ m
      | Ordering.gt ↦ (j, w) ∷ rest
    ]

-- the loop over the targets
unfoldable pub read_profiles :
    (Value → Result String VerificationProfile)
    → List (String × VerificationProfile)
    → List (String × Value)
    → Result ProfileError (List (String × VerificationProfile))
read_profiles decode profiles [] = ok profiles
read_profiles decode profiles ((name, body) ∷ rest) = elim (decode body) [
  | err e ↦ err (undecodable name e)
  | ok raw ↦ elim (check_profile name raw) [
    | err e ↦ err e
    | ok profile ↦ read_profiles decode (insert_profile name profile profiles) rest
  ]
]

unfoldable pub parse_verification_profiles :
    (Value → Result String VerificationProfile)
    → Value
    → Result ProfileError (List (String × VerificationProfile))
parse_verification_profiles decode (object fs) =
    if is_empty (entries fs) then err no_profiles else read_profiles decode [] (entries fs)
parse_verification_profiles decode value = err (not_an_object (shape_of value))

-- A target that has something to match, no empty name, and no floor of zero.
abbrev is_usable : VerificationProfile → Bool
is_usable profile =
    not (is_zero_floor profile)
    && all (λ s. not (is_empty_text s)) profile.functions
    && all (λ s. not (is_empty_text s)) profile.provers
    && all (λ s. not (is_empty_text s)) profile.build_gates
    && not (is_empty profile.functions && is_empty profile.sources)

abbrev pub all_usable : List (String × VerificationProfile) → Bool
all_usable profiles = all (λ (e : String × VerificationProfile). is_usable e.1) profiles

trim_all-nonempty :
    (ss ts : List String) → trim_all ss ≡ some ts → all (λ s. not (is_empty_text s)) ts ≡ true
unfolding trim_all
trim_all-nonempty [] ts h = ground arith
trim_all-nonempty (s ∷ ss) ts h = elim (Option-cases (trim_all ss)) [
  | inl eq ↦ absurd (ground arith)
  | inr (rest, eq) ↦ let later = trim_all-nonempty ss rest eq in ground arith
]

check_profile-usable :
    (name : String) (raw profile : VerificationProfile)
    → check_profile name raw ≡ ok profile
    → is_usable profile ≡ true
unfolding check_profile
check_profile-usable name raw profile h = elim (Option-cases (trim_all raw.functions)) [
  | inl eq ↦ absurd (ground arith)
  | inr (functions, eq) ↦ elim (Option-cases (trim_all raw.provers)) [
    | inl eq2 ↦ absurd (ground arith)
    | inr (provers, eq2) ↦ elim (Option-cases (trim_all raw.build_gates)) [
      | inl eq3 ↦ absurd (ground arith)
      | inr (build_gates, eq3) ↦
          let a = trim_all-nonempty raw.functions functions eq in
          let b = trim_all-nonempty raw.provers provers eq2 in
          let c = trim_all-nonempty raw.build_gates build_gates eq3 in
          let made : record raw {
            functions = functions;
            provers = provers;
            build_gates = build_gates;
          }
              ≡ profile =
            ground arith in
          subst (λ q. is_usable q ≡ true) made (ground arith)
    ]
  ]
]

insert_profile-usable :
    (k : String) (v : VerificationProfile) (m : List (String × VerificationProfile))
    → is_usable v ≡ true
    → all_usable m ≡ true
    → (all_usable (insert_profile k v m) ≡ true) × (is_empty (insert_profile k v m) ≡ false)
unfolding insert_profile
insert_profile-usable k v [] h rest = (ground arith, refl)
insert_profile-usable k v ((j, w) ∷ m) h rest =
    let later = insert_profile-usable k v m h (ground arith) in
    elim (compare k j)
      as (λ o.
        (all_usable (elim o [
          | Ordering.lt ↦ (k, v) ∷ (j, w) ∷ m
          | Ordering.eq ↦ (j, v) ∷ m
          | Ordering.gt ↦ (j, w) ∷ insert_profile k v m
        ])
          ≡ true)
        × (is_empty (elim o [
          | Ordering.lt ↦ (k, v) ∷ (j, w) ∷ m
          | Ordering.eq ↦ (j, v) ∷ m
          | Ordering.gt ↦ (j, w) ∷ insert_profile k v m
        ])
            ≡ false)) [
              | Ordering.lt ↦ (ground arith, refl)
              | Ordering.eq ↦ (ground arith, refl)
              | Ordering.gt ↦ (ground arith, refl)
            ]

read_profiles-usable :
    (decode : Value → Result String VerificationProfile)
    (profiles : List (String × VerificationProfile)) (bodies : List (String × Value))
    (out : List (String × VerificationProfile))
    → all_usable profiles ≡ true
    → not (is_empty profiles) || not (is_empty bodies) ≡ true
    → read_profiles decode profiles bodies ≡ ok out
    → (all_usable out ≡ true) × (is_empty out ≡ false)
unfolding read_profiles
read_profiles-usable decode profiles [] out usable some_left h =
    let same : profiles ≡ out = ground arith in
    subst (λ m. (all_usable m ≡ true) × (is_empty m ≡ false)) same (usable, ground arith)
read_profiles-usable decode profiles ((name, body) ∷ rest) out usable some_left h =
    elim (Result-cases (decode body)) [
      | inr (e, eq) ↦ absurd (ground arith)
      | inl (raw, eq) ↦ elim (Result-cases (check_profile name raw)) [
        | inr (e, eq2) ↦ absurd (ground arith)
        | inl (profile, eq2) ↦
            let here =
              insert_profile-usable name profile profiles
                (check_profile-usable name raw profile eq2) usable in
            read_profiles-usable decode (insert_profile name profile profiles) rest out here.0
              (ground arith) (ground arith)
      ]
    ]

-- When a document is read, some target is registered, and every target registered names a function or a
-- source, has no empty name of a function, prover or gate, and no floor of zero goals.
pub parse_verification_profiles-usable :
    (decode : Value → Result String VerificationProfile) (value : Value)
    (out : List (String × VerificationProfile))
    → parse_verification_profiles decode value ≡ ok out
    → (all_usable out ≡ true) × (is_empty out ≡ false)
unfolding parse_verification_profiles
parse_verification_profiles-usable decode (object fs) out h =
    elim (Bool-cases (is_empty (entries fs))) [
      | inl nothing ↦ absurd (ground arith)
      | inr several ↦
          read_profiles-usable decode [] (entries fs) out refl (ground arith) (ground arith)
    ]
parse_verification_profiles-usable decode null out h = absurd (ground arith)
parse_verification_profiles-usable decode (boolean b) out h = absurd (ground arith)
parse_verification_profiles-usable decode (number n) out h = absurd (ground arith)
parse_verification_profiles-usable decode (other_number s) out h = absurd (ground arith)
parse_verification_profiles-usable decode (string s) out h = absurd (ground arith)
parse_verification_profiles-usable decode (array vs) out h = absurd (ground arith)
