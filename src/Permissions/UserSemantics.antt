-- ===== src/Permissions/UserSemantics.antt =====
-- Which permissions a user has, as derivations, and `user_has` of crates/core/src/permissions.rs as
-- what decides them.
use rind.Prelude.{
  ℕ, zero, suc, ◌≡◌, ◌⊎◌, ◌↔◌, inl, inr, Bool, true, false, some, ◌||◌, ◌==◌, nat_eq, Bool-cases,
  Option-cases, arith,
}
use rind.Set
use rind.Text.{Text, text_eq}
use rind.Users.{UserRecord, GroupEntry, lookup_by_uid, group_by_name, groups_for}
use rind.Permissions.{PermissionStore, listed}
use rind.Permissions.Check.{or_else, any_of, parents, group_grants, by_group, user_has}
use rind.Permissions.Semantics.{
  GroupHas, or_else-true, any_of-true, any_of-false, group_has-GroupHas, GroupHas-group_has,
}

abbrev pub is_everybodys : ℕ → ℕ → Bool
is_everybodys uid p = uid == 0 || p == 0

abbrev pub own_grant : PermissionStore → ℕ → ℕ → UserRecord → Bool
own_grant s uid p u = Set.contains p u.permissions || listed uid p s.uid_grants

-- Root has every permission and everybody has the permission 0. A known user has a permission that
-- a group of the user stands for; and, unless the overlay revokes it from the user, one that the
-- user's entry or the overlay grants, that a group of the user has, or that is linked to one had.
pub data UserHas (s : PermissionStore) (uid : ℕ) : ℕ → Type 0 where
  everybody : {p : ℕ} → is_everybodys uid p ≡ true → UserHas s uid p
  named :
      {p : ℕ} (u : UserRecord)
      → lookup_by_uid s.users uid ≡ some u
      → by_group s p (groups_for s.users u) ≡ true
      → UserHas s uid p
  own :
      {p : ℕ} (u : UserRecord)
      → lookup_by_uid s.users uid ≡ some u
      → listed uid p s.uid_revokes ≡ false
      → own_grant s uid p u ≡ true
      → UserHas s uid p
  through :
      {p : ℕ} (u : UserRecord) (name : Text) (g : GroupEntry)
      → lookup_by_uid s.users uid ≡ some u
      → listed uid p s.uid_revokes ≡ false
      → Set.contains name (groups_for s.users u) ≡ true
      → group_by_name s.users name ≡ some g
      → GroupHas s g.gid p
      → UserHas s uid p
  linked :
      {p : ℕ} (u : UserRecord) (q : ℕ)
      → lookup_by_uid s.users uid ≡ some u
      → listed uid p s.uid_revokes ≡ false
      → Set.contains q (parents s p) ≡ true
      → UserHas s uid q
      → UserHas s uid p

-- the ways in which `user_has` comes to say yes
user_has_cases :
    (fuel : ℕ) (s : PermissionStore) (uid p : ℕ)
    → is_everybodys uid p ≡ false
    → user_has (suc fuel) s uid p ≡ some true
    → (u : UserRecord) × (lookup_by_uid s.users uid ≡ some u)
      × ((by_group s p (groups_for s.users u) ≡ true)
          ⊎ ((listed uid p s.uid_revokes ≡ false)
              × ((own_grant s uid p u ≡ true)
                  ⊎ ((any_of (λ name. group_grants (suc fuel) s p name) (groups_for s.users u)
                        ≡ some true)
                      ⊎ (any_of (λ q. user_has fuel s uid q) (parents s p) ≡ some true)))))
unfolding user_has
user_has_cases fuel s uid p other h = elim (Option-cases (lookup_by_uid s.users uid)) [
  | inl missing ↦ ground arith
  | inr (u, found) ↦ (
    u,
    found,
    ground (
      arith,
      or_else-true
          (or_else (some (own_grant s uid p u))
            (any_of (λ (name : Text). group_grants (suc fuel) s p name) (groups_for s.users u)))
          (any_of (λ (q : ℕ). user_has fuel s uid q) (parents s p)),
      or_else-true (some (own_grant s uid p u))
          (any_of (λ (name : Text). group_grants (suc fuel) s p name) (groups_for s.users u)),
    ),
  )
]

group_grants-GroupHas :
    (fuel : ℕ) (s : PermissionStore) (p : ℕ) (name : Text)
    → group_grants fuel s p name ≡ some true
    → (g : GroupEntry) × (group_by_name s.users name ≡ some g) × GroupHas s g.gid p
unfolding group_grants
group_grants-GroupHas fuel s p name h = elim (Option-cases (group_by_name s.users name)) [
  | inl missing ↦ ground arith
  | inr (g, found) ↦ (g, found, group_has-GroupHas fuel s g.gid p (ground arith))
]

user_has_zero : (s : PermissionStore) (uid p : ℕ) → user_has 0 s uid p ≡ some true → UserHas s uid p
unfolding user_has
user_has_zero s uid p h = cc

-- What `user_has` grants is derivable.
pub user_has-UserHas :
    (fuel : ℕ) (s : PermissionStore) (uid p : ℕ)
    → user_has fuel s uid p ≡ some true
    → UserHas s uid p
user_has-UserHas zero s uid p h = user_has_zero s uid p h
user_has-UserHas (suc fuel) s uid p h = elim (Bool-cases (is_everybodys uid p)) [
  | inl all ↦ everybody all
  | inr other ↦
      let (u, found, why) = user_has_cases fuel s uid p other h in
      elim why [
        | inl by_name ↦ named u found by_name
        | inr (kept, rest) ↦ elim rest [
          | inl mine ↦ own u found kept mine
          | inr others ↦ elim others [
            | inl in_group ↦
                let (name, member, has) =
                  any_of-true (λ name. group_grants (suc fuel) s p name) (groups_for s.users u)
                    in_group in
                let (g, is_group, group_has_it) = group_grants-GroupHas (suc fuel) s p name has in
                through u name g found kept member is_group group_has_it
            | inr by_link ↦
                let (q, member, has) =
                  any_of-true (λ q. user_has fuel s uid q) (parents s p) by_link in
                linked u q found kept member (user_has-UserHas fuel s uid q has)
          ]
        ]
      ]
]

user_has_none :
    (s : PermissionStore) (uid p : ℕ) (b : Bool) → user_has 0 s uid p ≡ some b → b ≡ true
unfolding user_has
user_has_none s uid p b h = cc

user_has_everybody :
    (fuel : ℕ) (s : PermissionStore) (uid p : ℕ) (b : Bool)
    → is_everybodys uid p ≡ true
    → user_has fuel s uid p ≡ some b
    → b ≡ true
unfolding user_has
user_has_everybody zero s uid p b e h = cc
user_has_everybody (suc fuel) s uid p b e h = ground arith

module _ (fuel : ℕ) (s : PermissionStore) (uid p : ℕ) (b : Bool) (u : UserRecord)
    (found : lookup_by_uid s.users uid ≡ some u) (h : user_has (suc fuel) s uid p ≡ some b) where
  user_has_named : by_group s p (groups_for s.users u) ≡ true → b ≡ true
  unfolding user_has
  user_has_named e = ground arith

  user_has_own : listed uid p s.uid_revokes ≡ false → own_grant s uid p u ≡ true → b ≡ true
  unfolding user_has
  user_has_own kept e = ground arith

  user_has_through :
      (name : Text)
      → listed uid p s.uid_revokes ≡ false
      → Set.contains name (groups_for s.users u) ≡ true
      → (b ≡ true) ⊎ (group_grants (suc fuel) s p name ≡ some false)
  unfolding user_has
  user_has_through name kept member = ground (
    arith,
    any_of-false (λ (k : Text). group_grants (suc fuel) s p k) (groups_for s.users u) false name,
  )

  user_has_linked :
      (q : ℕ)
      → listed uid p s.uid_revokes ≡ false
      → Set.contains q (parents s p) ≡ true
      → (b ≡ true) ⊎ (user_has fuel s uid q ≡ some false)
  unfolding user_has
  user_has_linked q kept member =
      ground (arith, any_of-false (λ (k : ℕ). user_has fuel s uid k) (parents s p) b q)

group_grants-true :
    (fuel : ℕ) (s : PermissionStore) (p : ℕ) (name : Text) (g : GroupEntry) (b : Bool)
    → group_by_name s.users name ≡ some g
    → GroupHas s g.gid p
    → group_grants fuel s p name ≡ some b
    → b ≡ true
unfolding group_grants
group_grants-true fuel s p name g b is_group has h =
    GroupHas-group_has s g.gid has fuel b (ground arith)

-- Whatever is derivable, `user_has` grants, if it returns.
pub UserHas-user_has :
    (s : PermissionStore) (uid : ℕ) {p : ℕ}
    → UserHas s uid p
    → (fuel : ℕ) (b : Bool) → user_has fuel s uid p ≡ some b
    → b ≡ true
UserHas-user_has s uid {p} (everybody e) fuel b h = user_has_everybody fuel s uid p b e h
UserHas-user_has s uid {p} (named u found e) zero b h = user_has_none s uid p b h
UserHas-user_has s uid {p} (own u found kept e) zero b h = user_has_none s uid p b h
UserHas-user_has s uid {p} (through u n g found kept m i has) zero b h = user_has_none s uid p b h
UserHas-user_has s uid {p} (linked u q found kept m has) zero b h = user_has_none s uid p b h
UserHas-user_has s uid {p} (named u found e) (suc fuel) b h =
    user_has_named fuel s uid p b u found h e
UserHas-user_has s uid {p} (own u found kept e) (suc fuel) b h =
    user_has_own fuel s uid p b u found h kept e
UserHas-user_has s uid {p} (through u name g found kept member is_group has) (suc fuel) b h =
    elim (user_has_through fuel s uid p b u found h name kept member) [
      | inl done ↦ done
      | inr refused ↦ cc (group_grants-true (suc fuel) s p name g false is_group has refused)
    ]
UserHas-user_has s uid {p} (linked u q found kept member has) (suc fuel) b h =
    elim (user_has_linked fuel s uid p b u found h q kept member) [
      | inl done ↦ done
      | inr refused ↦ cc (UserHas-user_has s uid has fuel false refused)
    ]

-- Where user_has returns, its answer is yes exactly when the permission is derivable for the user
-- by the rules on root, group names, own grants, groups and links.
pub user_has_iff :
    (fuel : ℕ) (s : PermissionStore) (uid p : ℕ) (b : Bool)
    → user_has fuel s uid p ≡ some b
    → (b ≡ true) ↔ UserHas s uid p
user_has_iff fuel s uid p b h =
    (λ e. user_has-UserHas fuel s uid p (cc (h, e)), λ has. UserHas-user_has s uid has fuel b h)
