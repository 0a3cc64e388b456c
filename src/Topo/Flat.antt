-- ===== src/Topo/Flat.antt =====
-- The order lists the groups' members, and holds just the defined functions of the levels.
use frama_c_mcp.Prelude.{
  ℕ, String, ◌≡◌, refl, ap, Bool, Bool-cases, inl, inr, true, false, ◌&&◌, ◌||◌, List, [], ◌∷◌,
  ◌++◌, append_assoc, any, filter_by, is_empty, ◌=ˢ◌, =ˢ_iff, arith,
}
use frama_c_mcp.Topo.{SccGroup, Level, has_member, flatten_groups, flatten_levels_to_vo_scc}

-- the members of some groups, in their order
unfoldable pub all_members : List SccGroup → List String
all_members [] = []
all_members (group ∷ groups) = group.members ++ all_members groups

unfoldable pub in_levels : String → List Level → Bool
unfolding has_member
in_levels name levels =
    any (λ (l : Level). any (λ (g : SccGroup). has_member name g.members) l.groups) levels

has_member-append :
    (name : String) (xs ys : List String)
    → has_member name (xs ++ ys) ≡ (has_member name xs || has_member name ys)
unfolding has_member
has_member-append name [] ys = refl
has_member-append name (x ∷ xs) ys = ground (arith, has_member-append name xs ys)

all_members-append :
    (xs ys : List SccGroup) → all_members (xs ++ ys) ≡ all_members xs ++ all_members ys
unfolding all_members
all_members-append [] ys = refl
all_members-append (x ∷ xs) ys =
    ground
      (arith, all_members-append xs ys, append_assoc x.members (all_members xs) (all_members ys))

has_member-cons :
    (name x : String) (xs : List String)
    → has_member name (x ∷ xs) ≡ (x =ˢ name || has_member name xs)
unfolding has_member
has_member-cons name x xs = refl

has_member-nil : (name : String) → has_member name [] ≡ false
unfolding has_member
has_member-nil name = refl

has_member-filter_by :
    (name : String) (defined names : List String)
    → has_member name (filter_by (λ m. has_member m defined) names)
      ≡ (has_member name defined && has_member name names)
has_member-filter_by name defined [] = ground (arith, has_member-nil name)
has_member-filter_by name defined (n ∷ names) =
    let rest = has_member-filter_by name defined names in
    let whole = has_member-cons name n names in
    let kept = has_member-cons name n (filter_by (λ m. has_member m defined) names) in
    elim (Bool-cases (n =ˢ name)) [
      | inl same ↦
          let equal = (=ˢ_iff n name).0 same in
          let alike : has_member n defined ≡ has_member name defined =
            ap (λ x. has_member x defined) equal in
          elim (Bool-cases (has_member n defined)) [
            | inl yes_defined ↦ ground arith
            | inr not_defined ↦ ground arith
          ]
      | inr other ↦ elim (Bool-cases (has_member n defined)) [
        | inl yes_defined ↦ ground arith
        | inr not_defined ↦ ground arith
      ]
    ]

is_empty-has_member :
    (name : String) (xs : List String) → is_empty xs ≡ true → has_member name xs ≡ false
is_empty-has_member name [] h = has_member-nil name
is_empty-has_member name (x ∷ xs) h = absurd (ground arith)

flatten_groups-has_member :
    (name : String) (defined : List String) (level : ℕ) (groups : List SccGroup)
    → has_member name (flatten_groups defined level groups).0
      ≡ (has_member name defined && any (λ (g : SccGroup). has_member name g.members) groups)
unfolding flatten_groups
flatten_groups-has_member name defined level [] = ground (arith, has_member-nil name)
flatten_groups-has_member name defined level (group ∷ groups) =
    let kept = filter_by (λ m. has_member m defined) group.members in
    let rest = flatten_groups-has_member name defined level groups in
    let filtered = has_member-filter_by name defined group.members in
    let joined = has_member-append name kept (flatten_groups defined level groups).0 in
    elim (Bool-cases (is_empty kept)) [
      | inl nothing ↦ let absent = is_empty-has_member name kept nothing in ground arith
      | inr something ↦ ground arith
    ]

flatten_groups-members :
    (defined : List String) (level : ℕ) (groups : List SccGroup)
    → (flatten_groups defined level groups).0 ≡ all_members (flatten_groups defined level groups).1
unfolding flatten_groups all_members
flatten_groups-members defined level [] = refl
flatten_groups-members defined level (group ∷ groups) =
    ground (arith, flatten_groups-members defined level groups)

-- The order is the members of the groups that come with it, in their order, and a name is in it exactly
-- when it is defined and in a group of some level.
pub flatten_levels_to_vo_scc_lem :
    (levels : List Level) (defined : List String) (name : String)
    → ((flatten_levels_to_vo_scc levels defined).0
        ≡ all_members (flatten_levels_to_vo_scc levels defined).1)
      × (has_member name (flatten_levels_to_vo_scc levels defined).0
          ≡ (has_member name defined && in_levels name levels))
unfolding flatten_levels_to_vo_scc in_levels all_members
flatten_levels_to_vo_scc_lem [] defined name = (refl, ground (arith, has_member-nil name))
flatten_levels_to_vo_scc_lem (level ∷ levels) defined name =
    let rest = flatten_levels_to_vo_scc_lem levels defined name in
    let here = flatten_groups-members defined level.level level.groups in
    let mine = flatten_groups-has_member name defined level.level level.groups in
    let joined =
      all_members-append (flatten_groups defined level.level level.groups).1
        (flatten_levels_to_vo_scc levels defined).1 in
    let found =
      has_member-append name (flatten_groups defined level.level level.groups).0
        (flatten_levels_to_vo_scc levels defined).0 in
    (grind arith, grind arith)
