-- ===== src/Users/Perms.antt =====
-- `UserStore::write_perms_with_overlay` of crates/core/src/user.rs: the bytes of the permission
-- file. A `BTreeSet<u16>` is a list in ascending order, a `HashSet<u16>` a list.
use rind.Prelude.{
  ℕ, Option, none, some, List, [], ◌∷◌, ◌++◌, if◌then◌else◌, ltb, nat_beq, length, is_empty, nat_eq,
}
use rind.Bytes.{u16_mod, u16_to_le, u32_to_le}
use rind.Map
use rind.Map.{Map}
use rind.Set
use rind.Text.{Text}
use rind.Error.{CoreResult, ok, err, too_many_permissions, ◌>>=◌}
use rind.Users.{UserRecord, GroupEntry, UserStore}

-- `BTreeSet::insert`
unfoldable pub insert_sorted : ℕ → List ℕ → List ℕ
insert_sorted p [] = p ∷ []
insert_sorted p (q ∷ qs) =
    if ltb p q then p ∷ q ∷ qs else (if nat_beq p q then q ∷ qs else q ∷ insert_sorted p qs)

-- `BTreeSet::extend`, and `collect` from the empty set
unfoldable pub extend : List ℕ → List ℕ → List ℕ
unfolding insert_sorted
extend [] ps = ps
extend (x ∷ xs) ps = extend xs (insert_sorted x ps)

-- `for perm in revokes { effective.remove(perm) }`
unfoldable pub remove_all : List ℕ → List ℕ → List ℕ
remove_all [] ps = ps
remove_all (x ∷ xs) ps = remove_all xs (Set.remove x ps)

-- the set without the overlay's revocations, where it has any for the user or group
unfoldable pub revoke : Option (List ℕ) → List ℕ → List ℕ
unfolding remove_all
revoke none ps = ps
revoke (some rs) ps = remove_all rs ps

unfoldable pub grant : Option (List ℕ) → List ℕ → List ℕ
unfolding extend
grant none ps = ps
grant (some gs) ps = extend gs ps

-- The permissions of one user or group, less the overlay's revocations, with its grants.
unfoldable pub effective : List ℕ → Option (List ℕ) → Option (List ℕ) → List ℕ
unfolding revoke grant
effective permissions revokes grants = grant grants (revoke revokes (extend permissions []))

unfoldable pub ids_to_le : List ℕ → List ℕ
ids_to_le [] = []
ids_to_le (p ∷ ps) = u16_to_le p ++ ids_to_le ps

-- One record of the file; none for an empty set.
unfoldable pub write_record : ℕ → ℕ → Text → List ℕ → CoreResult (List ℕ)
unfolding ids_to_le
write_record kind id name ps =
    if is_empty ps
    then ok []
    else (if ltb (length ps) u16_mod
        then ok (kind ∷ u32_to_le id ++ u16_to_le (length ps) ++ ids_to_le ps)
        else err (too_many_permissions name id))

-- The overlay of `PermissionStoreInner`: grants and revocations by user and by group.
pub record Overlay : Type 0 where
  pub uid_grants : Map ℕ (List ℕ)
  pub uid_revokes : Map ℕ (List ℕ)
  pub gid_grants : Map ℕ (List ℕ)
  pub gid_revokes : Map ℕ (List ℕ)

unfoldable pub user_effective : Overlay → UserRecord → List ℕ
unfolding effective
user_effective o u =
    effective u.permissions (Map.get u.uid o.uid_revokes) (Map.get u.uid o.uid_grants)

unfoldable pub group_effective : Overlay → GroupEntry → List ℕ
unfolding effective
group_effective o g =
    effective g.permissions (Map.get g.gid o.gid_revokes) (Map.get g.gid o.gid_grants)

unfoldable pub write_users : Overlay → List UserRecord → CoreResult (List ℕ)
write_users o [] = ok []
write_users o (u ∷ us) = do
  first ← write_record 0 u.uid u.username (user_effective o u)
  rest ← write_users o us
  ok (first ++ rest)

unfoldable pub write_groups : Overlay → List GroupEntry → CoreResult (List ℕ)
write_groups o [] = ok []
write_groups o (g ∷ gs) = do
  first ← write_record 1 g.gid g.name (group_effective o g)
  rest ← write_groups o gs
  ok (first ++ rest)

-- What `write_perms_with_overlay` hands to `fs::write`.
unfoldable pub write_perms_with_overlay : UserStore → Overlay → CoreResult (List ℕ)
write_perms_with_overlay s o = do
  users ← write_users o s.users
  groups ← write_groups o s.groups
  ok (users ++ groups)
