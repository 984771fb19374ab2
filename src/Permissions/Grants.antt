-- ===== src/Permissions/Grants.antt =====
-- What the grants and revocations of crates/core/src/permissions.rs do to the answers.
use mathlib.Core.Path.{fun_ext}
use rind.Prelude.{
  ℕ, zero, suc, ◌≡◌, ◌≢◌, refl, Bool, true, false, Option, some, List, [], ◌==◌, nat_eq, ◌&&◌,
  if◌then◌else◌, Option-cases, inl, inr, arith,
}
use rind.Map
use rind.Map.{Map}
use rind.Set
use rind.Text.{Text, text_eq}
use rind.Users.{UserRecord, lookup_by_uid, group_by_name, groups_for}
use rind.Permissions.{PermissionStore, listed, list_in, strike_out, grant_user, ungrant_user}
use rind.Permissions.Check.{any_of, parents, group_has, group_grants, by_group, user_has}
use rind.Permissions.UserSemantics.{is_everybodys}

pub listed-list_in :
    (id p i q : ℕ) (m : Map ℕ (List ℕ))
    → listed i q (list_in id p m) ≡ (if id == i && p == q then true else listed i q m)
unfolding listed list_in Map.get_or
listed-list_in id p i q m = ground (
  arith,
  Map.get-insert id i (Set.insert p (Map.get_or id [] m)) m,
  Set.contains-insert p q (Map.get_or id [] m),
  Set.contains-nil q,
)

pub listed-strike_out :
    (id p i q : ℕ) (m : Map ℕ (List ℕ))
    → listed i q (strike_out id p m) ≡ (if id == i && p == q then false else listed i q m)
unfolding listed strike_out Map.get_or
listed-strike_out id p i q m = ground (
  arith,
  Map.get-insert id i (Set.remove p (Map.get_or id [] m)) m,
  Set.contains-remove p q (Map.get_or id [] m),
  Set.contains-nil q,
)

-- After grant_user, user_has says yes to that permission of that known user.
pub grant_user-user_has :
    (s : PermissionStore) (uid p fuel : ℕ) (u : UserRecord)
    → lookup_by_uid s.users uid ≡ some u
    → user_has (suc fuel) (grant_user uid p s) uid p ≡ some true
unfolding user_has grant_user
grant_user-user_has s uid p fuel u found =
    ground
      (arith, listed-strike_out uid p uid p s.uid_revokes, listed-list_in uid p uid p s.uid_grants)

-- After ungrant_user, user_has answers for that known user and permission whether a group of the
-- user stands for the permission, and nothing else, if the user is not root and the permission is
-- not 0.
pub ungrant_user-user_has :
    (s : PermissionStore) (uid p fuel : ℕ) (u : UserRecord)
    → lookup_by_uid s.users uid ≡ some u
    → is_everybodys uid p ≡ false
    → user_has (suc fuel) (ungrant_user uid p s) uid p ≡ some (by_group s p (groups_for s.users u))
unfolding user_has ungrant_user by_group
ungrant_user-user_has s uid p fuel u found other =
    ground (arith, listed-list_in uid p uid p s.uid_revokes)

any_of_congr :
    {A : Type 0} (f g : A → Option Bool) (xs : List A)
    → ((x : A) → f x ≡ g x)
    → any_of f xs ≡ any_of g xs
any_of_congr f g xs h = rw (fun_ext h)

-- a store with other grants and revocations of users
abbrev with_users : PermissionStore → Map ℕ (List ℕ) → Map ℕ (List ℕ) → PermissionStore
with_users s grants revokes = record s {
  overlay = record s.overlay { uid_grants = grants; uid_revokes = revokes };
}

module _ (s : PermissionStore) (grants revokes : Map ℕ (List ℕ)) where
  group_has-with_users :
      (fuel gid q : ℕ) → group_has fuel (with_users s grants revokes) gid q ≡ group_has fuel s gid q
  unfolding group_has parents
  group_has-with_users zero gid q = refl
  group_has-with_users (suc fuel) gid q = ground (
    arith,
    any_of_congr (λ (k : ℕ). group_has fuel (with_users s grants revokes) gid k)
        (λ (k : ℕ). group_has fuel s gid k) (Map.get_or q [] s.links)
        (λ (k : ℕ). group_has-with_users fuel gid k),
  )

  group_grants-with_users :
      (fuel q : ℕ) (name : Text)
      → group_grants fuel (with_users s grants revokes) q name ≡ group_grants fuel s q name
  unfolding group_grants
  group_grants-with_users fuel q name = elim (Option-cases (group_by_name s.users name)) [
    | inl missing ↦ rw (missing, group_grants)
    | inr (g, found) ↦ rw (found, group_grants) (group_has-with_users fuel g.gid q)
  ]

  -- a user whose grants and revocations are the same has the same permissions
  user_has-with_users :
      (uid : ℕ)
      → ((q : ℕ) → listed uid q grants ≡ listed uid q s.uid_grants)
      → ((q : ℕ) → listed uid q revokes ≡ listed uid q s.uid_revokes)
      → (fuel q : ℕ) → user_has fuel (with_users s grants revokes) uid q ≡ user_has fuel s uid q
  unfolding user_has parents by_group
  user_has-with_users uid g r zero q = refl
  user_has-with_users uid g r (suc fuel) q =
      let links =
        any_of_congr (λ (k : ℕ). user_has fuel (with_users s grants revokes) uid k)
          (λ (k : ℕ). user_has fuel s uid k) (Map.get_or q [] s.links)
          (λ (k : ℕ). user_has-with_users uid g r fuel k) in
      elim (Option-cases (lookup_by_uid s.users uid)) [
        | inl missing ↦ ground arith
        | inr (u, found) ↦ ground (
          arith,
          g q,
          r q,
          links,
          any_of_congr
              (λ (name : Text). group_grants (suc fuel) (with_users s grants revokes) q name)
              (λ (name : Text). group_grants (suc fuel) s q name) (groups_for s.users u)
              (λ (name : Text). group_grants-with_users (suc fuel) q name),
        )
      ]

-- Granting or revoking a permission of one user leaves every answer of user_has about another user
-- as it was.
pub user_has-grant_user_ne :
    (s : PermissionStore) (uid p other : ℕ)
    → uid ≢ other
    → (fuel q : ℕ)
    → (user_has fuel (grant_user uid p s) other q ≡ user_has fuel s other q)
      × (user_has fuel (ungrant_user uid p s) other q ≡ user_has fuel s other q)
unfolding grant_user ungrant_user
user_has-grant_user_ne s uid p other ne fuel q = (
  user_has-with_users s _ _ other (λ k. ground (arith, listed-list_in uid p other k s.uid_grants))
      (λ k. ground (arith, listed-strike_out uid p other k s.uid_revokes)) fuel q,
  user_has-with_users s _ _ other
      (λ k. ground (arith, listed-strike_out uid p other k s.uid_grants))
      (λ k. ground (arith, listed-list_in uid p other k s.uid_revokes)) fuel q,
)
