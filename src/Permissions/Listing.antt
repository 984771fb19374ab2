-- ===== src/Permissions/Listing.antt =====
-- `PermissionStore::all` of crates/core/src/permissions.rs, which lists permissions for display.
pub mod Shown
use rind.Prelude.{
  ℕ, suc, ◌≡◌, refl, ◌∙◌, inl, inr, Bool, true, false, not, ◌||◌, Option, none, some, List, [], ◌∷◌,
  ◌++◌, filter, if◌then◌else◌, Eq, ◌==◌, ==_iff, ==_refl, nat_eq, Bool-cases, Option-cases, arith,
}
use rind.Map
use rind.Map.{Map}
use rind.Set
use rind.Text.{Text, codes, text_eq}
use rind.Error.{CoreResult, ok, err, not_found_id}
use rind.Users.{UserRecord, lookup_by_uid, group, groups_for}
use rind.Permissions.{PermissionStore, listed}
use rind.Permissions.Check.{user_has}
use rind.Permissions.UserSemantics.{is_everybodys}

abbrev pub unknown : Text
unknown = codes "unknown"

-- the `map` and `collect` of a chain of permissions: a name is taken out of `names` where it is used
unfoldable pub collect : List ℕ → Map ℕ Text → Map ℕ Text → Map ℕ Text
collect [] names acc = acc
collect (x ∷ xs) names acc =
    collect xs (Map.remove x names) (Map.insert x (Map.get_or x unknown names) acc)

abbrev pub Row : Type 0
Row = ℕ × Text × Option Text

unfoldable pub rows : Map ℕ Text → Map ℕ Text → List Row
rows [] groups = []
rows ((id, name) ∷ m) groups = (id, name, Map.get id groups) ∷ rows m (Map.remove id groups)

-- the entry's own permissions and the granted ones, without the revoked
unfoldable pub kept : List ℕ → ℕ → Map ℕ (List ℕ) → Map ℕ (List ℕ) → List ℕ
unfolding listed
kept own id grants revokes =
    filter (λ x. not (listed id x revokes)) (own ++ Map.get_or id [] grants)

unfoldable pub all_of_user : ℕ → PermissionStore → CoreResult (Map ℕ Text)
unfolding collect kept
all_of_user uid s = elim (lookup_by_uid s.users uid) [
  | none ↦ err (not_found_id (codes "user") uid)
  | some u ↦ ok (collect (kept u.permissions uid s.uid_grants s.uid_revokes) s.by_id [])
]

unfoldable pub all_of_group : ℕ → PermissionStore → CoreResult (Map ℕ Text)
unfolding collect kept
all_of_group gid s = elim (group s.users gid) [
  | none ↦ err (not_found_id (codes "group") gid)
  | some g ↦ ok (collect (kept g.permissions gid s.gid_grants s.gid_revokes) s.by_id [])
]

unfoldable pub list_rows : CoreResult (Map ℕ Text) → PermissionStore → CoreResult (List Row)
unfolding rows
list_rows (ok m) s = ok (rows m s.groups)
list_rows (err e) s = err e

unfoldable pub all : Option ℕ → Bool → PermissionStore → CoreResult (List Row)
all (some uid) false s = list_rows (all_of_user uid s) s
all (some gid) true s = list_rows (all_of_group gid s) s
all none group_wanted s = list_rows (ok s.by_id) s
