-- ===== src/Permissions.antt =====
-- crates/core/src/permissions.rs: the permission store. Its locks are never poisoned, and a call
-- holds them alone, so they have no part in the model. A permission is its number.
pub mod Check
pub mod Expr
pub mod Semantics
pub mod UserSemantics
pub mod Termination
pub mod Grants
pub mod Listing
pub mod Ipc
pub mod Handlers
use mathlib.Core.Option
use rind.Prelude.{
  ℕ, zero, suc, ◌+◌, Bool, true, false, Option, none, some, List, [], ◌∷◌, ◌++◌, if◌then◌else◌,
  ◌||◌, ◌&&◌, not, any, filter, Eq, ◌==◌, nat_eq, map, is_empty,
}
use rind.Map
use rind.Map.{Map}
use rind.Set
use rind.Text.{Text, codes, text_eq}
use rind.Error.{CoreResult, ok, err, ok_or, duplicate_permissions, not_found, ◌>>=◌}
use rind.Users.{UserRecord, GroupEntry, UserStore, lookup_by_uid, group}
use rind.Users.Perms.{Overlay}
use rind.Users.Perms

-- `PermissionStoreInner` and `PermissionStore` in one.
pub record PermissionStore : Type 0 where
  pub overlay : Overlay
  pub open overlay use *
  pub links : Map ℕ (List ℕ)
  pub groups : Map ℕ Text
  pub by_id : Map ℕ Text
  pub by_name : Map Text ℕ
  pub users : UserStore

abbrev pub no_overlay : Overlay
no_overlay = record { uid_grants = []; uid_revokes = []; gid_grants = []; gid_revokes = [] }

-- `PermissionStore::new`
unfoldable pub new : UserStore → PermissionStore
new users = record {
  overlay = no_overlay;
  links = [];
  groups = [];
  by_id = [];
  by_name = [];
  users = users;
}

unfoldable pub exists : PermissionStore → Text → Bool
exists s perm = Map.contains_key perm s.by_name

-- "any" names the permission 0, which everybody has.
unfoldable pub from_name : PermissionStore → Text → Option ℕ
from_name s name = if name == codes "any" then some 0 else Map.get name s.by_name

-- `map.get(&id).map(|x| x.contains(&perm)).unwrap_or(false)`
unfoldable pub listed : ℕ → ℕ → Map ℕ (List ℕ) → Bool
listed id perm m = elim (Map.get id m) [ none ↦ false | some ps ↦ Set.contains perm ps ]

-- `map.entry(id).or_default().insert(perm)`
unfoldable pub list_in : ℕ → ℕ → Map ℕ (List ℕ) → Map ℕ (List ℕ)
list_in id perm m = Map.insert id (Set.insert perm (Map.get_or id [] m)) m

-- `map.entry(id).or_default().remove(&perm)`
unfoldable pub strike_out : ℕ → ℕ → Map ℕ (List ℕ) → Map ℕ (List ℕ)
strike_out id perm m = Map.insert id (Set.remove perm (Map.get_or id [] m)) m

unfoldable pub link : ℕ → ℕ → PermissionStore → PermissionStore
unfolding listed list_in
link perm parent s =
    if listed parent perm s.links then s else record s { links = list_in perm parent s.links }

unfoldable pub or_group : ℕ → Text → PermissionStore → PermissionStore
or_group perm g s = record s { groups = Map.insert perm g s.groups }

unfoldable pub grant_user : ℕ → ℕ → PermissionStore → PermissionStore
unfolding list_in strike_out
grant_user uid perm s = record s {
  overlay = record s.overlay {
    uid_revokes = strike_out uid perm s.uid_revokes;
    uid_grants = list_in uid perm s.uid_grants;
  };
}

unfoldable pub grant_group : ℕ → ℕ → PermissionStore → PermissionStore
unfolding list_in strike_out
grant_group gid perm s = record s {
  overlay = record s.overlay {
    gid_revokes = strike_out gid perm s.gid_revokes;
    gid_grants = list_in gid perm s.gid_grants;
  };
}

unfoldable pub ungrant_user : ℕ → ℕ → PermissionStore → PermissionStore
unfolding list_in strike_out
ungrant_user uid perm s = record s {
  overlay = record s.overlay {
    uid_grants = strike_out uid perm s.uid_grants;
    uid_revokes = list_in uid perm s.uid_revokes;
  };
}

unfoldable pub ungrant_group : ℕ → ℕ → PermissionStore → PermissionStore
unfolding list_in strike_out
ungrant_group gid perm s = record s {
  overlay = record s.overlay {
    gid_grants = strike_out gid perm s.gid_grants;
    gid_revokes = list_in gid perm s.gid_revokes;
  };
}

-- `new_perm`; `reg_perm` makes the same change and returns the store.
unfoldable pub new_perm : Text → ℕ → PermissionStore → CoreResult (ℕ × PermissionStore)
new_perm name id s = elim (Map.get id s.by_id) [
  | some taken ↦ err (duplicate_permissions id taken)
  | none ↦
      ok (
        id,
        record s { by_id = Map.insert id name s.by_id; by_name = Map.insert name id s.by_name },
      )
]

unfoldable pub reg_perm : ℕ → Text → PermissionStore → CoreResult PermissionStore
unfolding new_perm
reg_perm id name s = new_perm name id s >>= λ r. ok r.1
