-- ===== src/Permissions/Check.antt =====
-- `user_has`, `group_has`, `user_check` and `eval_expr` of crates/core/src/permissions.rs. The two
-- recursions along the links take fuel; `none` is a recursion that the fuel does not finish.
use rind.Prelude.{
  ℕ, zero, suc, Bool, true, false, Option, none, some, List, [], ◌∷◌, if◌then◌else◌, ◌||◌, ◌==◌,
  nat_eq,
}
use rind.Map
use rind.Set
use rind.Text.{Text, text_eq}
use rind.Users.{lookup_by_uid, group, group_by_name, groups_for}
use rind.Permissions.{PermissionStore, listed}

-- `||` and `any` of tests that may not return
abbrev pub or_else : Option Bool → Option Bool → Option Bool
or_else none b = none
or_else (some true) b = some true
or_else (some false) b = b

abbrev pub any_of {ℓ} : {A : Type ℓ} → (A → Option Bool) → List A → Option Bool
any_of f [] = some false
any_of f (x ∷ xs) = or_else (f x) (any_of f xs)

-- the links of a permission
unfoldable pub parents : PermissionStore → ℕ → List ℕ
parents s perm = Map.get_or perm [] s.links

unfoldable pub group_has : ℕ → PermissionStore → ℕ → ℕ → Option Bool
group_has zero s gid perm = none
group_has (suc fuel) s gid perm = elim (group s.users gid) [
  | none ↦ some false
  | some g ↦
      if listed gid perm s.gid_revokes
      then some false
      else or_else (some (Set.contains perm g.permissions || listed gid perm s.gid_grants))
          (any_of (λ q. group_has fuel s gid q) (parents s perm))
]

-- one of the user's groups has the permission
unfoldable pub group_grants : ℕ → PermissionStore → ℕ → Text → Option Bool
group_grants fuel s perm name = elim (group_by_name s.users name) [
  | none ↦ some false
  | some g ↦ group_has fuel s g.gid perm
]

-- `inner.groups.get(&perm).is_some_and(|gs| groups.contains(gs))`
unfoldable pub by_group : PermissionStore → ℕ → List Text → Bool
by_group s perm names = elim (Map.get perm s.groups) [
  | none ↦ false
  | some g ↦ Set.contains g names
]

unfoldable pub user_has : ℕ → PermissionStore → ℕ → ℕ → Option Bool
user_has zero s uid perm = none
user_has (suc fuel) s uid perm =
    if uid == 0 || perm == 0 then some true else elim (lookup_by_uid s.users uid) [
      | none ↦ some false
      | some user ↦
          if by_group s perm (groups_for s.users user)
          then some true
          else (if listed uid perm s.uid_revokes
              then some false
              else or_else
                  (or_else
                    (some (Set.contains perm user.permissions || listed uid perm s.uid_grants))
                    (any_of (λ name. group_grants (suc fuel) s perm name)
                      (groups_for s.users user)))
                  (any_of (λ q. user_has fuel s uid q) (parents s perm)))
    ]
