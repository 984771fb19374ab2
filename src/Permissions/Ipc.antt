-- ===== src/Permissions/Ipc.antt =====
-- `grant_ungrant_ipc` of crates/primitives/src/permissions.rs. The store changes in place, so its
-- new state stands beside the result, also where the result is an error. Of the answer the model
-- keeps the bytes that went to the permission file.
use rind.Prelude.{
  ℕ, ◌≡◌, inl, inr, Bool, true, false, Option, none, some, List, if◌then◌else◌, nat_eq,
  Option-cases, Bool-cases, arith,
}
use rind.Bytes.{u16_mod}
use rind.Text.{Text, codes}
use rind.Text.Number.{parse_unsigned}
use rind.Error.{CoreResult, err, not_found}
use rind.Users.{group_by_name, lookup_by_name}
use rind.Users.Perms.{write_perms_with_overlay}
use rind.Permissions.{
  PermissionStore, from_name, listed, grant_user, ungrant_user, grant_group, ungrant_group,
}
use rind.Permissions.Grants.{listed-list_in, listed-strike_out}

-- `PermissionPayload`
pub record PermissionPayload : Type 0 where
  pub subject : Text
  pub permission : Text
  pub group : Bool

-- a permission's number, or its name
unfoldable pub permission_id : PermissionStore → Text → Option ℕ
permission_id s text = elim (parse_unsigned u16_mod text) [
  | some id ↦ some id
  | none ↦ from_name s text
]

-- the write of the permission file that ends a change
unfoldable pub save : PermissionStore → CoreResult (List ℕ) × PermissionStore
save s = (write_perms_with_overlay s.users s.overlay, s)

unfoldable pub change_group :
    Bool → PermissionPayload → ℕ → PermissionStore → CoreResult (List ℕ) × PermissionStore
unfolding save
change_group grant payload id s = elim (group_by_name s.users payload.subject) [
  | none ↦ (err (not_found (codes "group") payload.subject), s)
  | some g ↦ save (if grant then grant_group g.gid id s else ungrant_group g.gid id s)
]

unfoldable pub change_user :
    Bool → PermissionPayload → ℕ → PermissionStore → CoreResult (List ℕ) × PermissionStore
unfolding save
change_user grant payload id s = elim (lookup_by_name s.users payload.subject) [
  | none ↦ (err (not_found (codes "user") payload.subject), s)
  | some u ↦ save (if grant then grant_user u.uid id s else ungrant_user u.uid id s)
]

unfoldable pub grant_ungrant_ipc :
    PermissionPayload → PermissionStore → Bool → CoreResult (List ℕ) × PermissionStore
grant_ungrant_ipc payload s grant = elim (permission_id s payload.permission) [
  | none ↦ (err (not_found (codes "permission") payload.permission), s)
  | some id ↦
      if payload.group then change_group grant payload id s else change_user grant payload id s
]

-- No permission is at once granted to and revoked from a user or a group.
pub record IsDisjoint (s : PermissionStore) : Type 0 where
  pub users_apart :
      (uid p : ℕ) → listed uid p s.uid_grants ≡ true → listed uid p s.uid_revokes ≡ false
  pub groups_apart :
      (gid p : ℕ) → listed gid p s.gid_grants ≡ true → listed gid p s.gid_revokes ≡ false

module _ (s : PermissionStore) (d : IsDisjoint s) (id p : ℕ) where
  grant_user-IsDisjoint : IsDisjoint (grant_user id p s)
  unfolding grant_user
  grant_user-IsDisjoint = record {
    users_apart = λ i q h. ground (
      arith,
      listed-list_in id p i q s.uid_grants,
      listed-strike_out id p i q s.uid_revokes,
      d.users_apart i q,
    );
    groups_apart = d.groups_apart;
  }

  grant_group-IsDisjoint : IsDisjoint (grant_group id p s)
  unfolding grant_group
  grant_group-IsDisjoint = record {
    users_apart = d.users_apart;
    groups_apart = λ i q h. ground (
      arith,
      listed-list_in id p i q s.gid_grants,
      listed-strike_out id p i q s.gid_revokes,
      d.groups_apart i q,
    );
  }

  ungrant_user-IsDisjoint : IsDisjoint (ungrant_user id p s)
  unfolding ungrant_user
  ungrant_user-IsDisjoint = record {
    users_apart = λ i q h. ground (
      arith,
      listed-strike_out id p i q s.uid_grants,
      listed-list_in id p i q s.uid_revokes,
      d.users_apart i q,
    );
    groups_apart = d.groups_apart;
  }

  ungrant_group-IsDisjoint : IsDisjoint (ungrant_group id p s)
  unfolding ungrant_group
  ungrant_group-IsDisjoint = record {
    users_apart = d.users_apart;
    groups_apart = λ i q h. ground (
      arith,
      listed-strike_out id p i q s.gid_grants,
      listed-list_in id p i q s.gid_revokes,
      d.groups_apart i q,
    );
  }

if-IsDisjoint :
    (b : Bool) (s t : PermissionStore)
    → IsDisjoint s
    → IsDisjoint t
    → IsDisjoint (if b then s else t)
if-IsDisjoint true s t h k = h
if-IsDisjoint false s t h k = k

change_group-IsDisjoint :
    (grant : Bool) (payload : PermissionPayload) (id : ℕ) (s : PermissionStore)
    → IsDisjoint s
    → IsDisjoint (change_group grant payload id s).1
unfolding change_group
change_group-IsDisjoint grant payload id s d =
    elim (Option-cases (group_by_name s.users payload.subject)) [
      | inl missing ↦ rw (missing, change_group) d
      | inr (g, found) ↦
          rw (found, change_group)
            (if-IsDisjoint grant _ _ (grant_group-IsDisjoint s d g.gid id)
              (ungrant_group-IsDisjoint s d g.gid id))
    ]

change_user-IsDisjoint :
    (grant : Bool) (payload : PermissionPayload) (id : ℕ) (s : PermissionStore)
    → IsDisjoint s
    → IsDisjoint (change_user grant payload id s).1
unfolding change_user
change_user-IsDisjoint grant payload id s d =
    elim (Option-cases (lookup_by_name s.users payload.subject)) [
      | inl missing ↦ rw (missing, change_user) d
      | inr (u, found) ↦
          rw (found, change_user)
            (if-IsDisjoint grant _ _ (grant_user-IsDisjoint s d u.uid id)
              (ungrant_user-IsDisjoint s d u.uid id))
    ]

-- A grant or revoke request, successful or not, keeps it that no permission is both granted to and
-- revoked from a user or a group.
pub grant_ungrant_ipc-IsDisjoint :
    (payload : PermissionPayload) (s : PermissionStore) (grant : Bool)
    → IsDisjoint s
    → IsDisjoint (grant_ungrant_ipc payload s grant).1
unfolding grant_ungrant_ipc change_group change_user
grant_ungrant_ipc-IsDisjoint payload s grant d =
    elim (Option-cases (permission_id s payload.permission)) [
      | inl unknown ↦ rw (unknown, grant_ungrant_ipc) d
      | inr (id, known) ↦ elim (Bool-cases payload.group) [
        | inl of_group ↦
            rw (known, of_group, grant_ungrant_ipc) (change_group-IsDisjoint grant payload id s d)
        | inr of_user ↦
            rw (known, of_user, grant_ungrant_ipc) (change_user-IsDisjoint grant payload id s d)
      ]
    ]
