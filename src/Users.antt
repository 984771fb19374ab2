-- ===== src/Users.antt =====
-- crates/core/src/user.rs: the user store. A path is the content of its file; `u32` and `u16` are
-- numbers whose range is stated where it matters.
pub mod Parse
pub mod Load
pub mod Perms
pub mod Codec
pub mod Effective
pub mod Reload
use rind.Prelude.{
  ℕ, ◌+◌, ◌<◌, Bool, true, false, Option, none, some, List, [], ◌∷◌, ◌++◌, if◌then◌else◌, ◌&&◌,
  ◌||◌, not, ltb, length, get_elem?, any, find, Eq, ◌==◌, nat_eq,
}
use rind.Map
use rind.Map.{Map}
use rind.Set
use rind.Text.{Text, text_eq}
use mathlib.Core.Option

pub record UserRecord : Type 0 where
  pub username : Text
  pub uid : ℕ
  pub gid : ℕ
  pub gecos : Text
  pub home : Text
  pub shell : Text
  pub permissions : List ℕ

-- Days are `i64` in the source; `Days` keeps the sign.
pub data Days : Type 0 where
  days : ℕ → Days
  before_epoch : ℕ → Days

pub record ShadowEntry : Type 0 where
  pub username : Text
  pub password_hash : Text
  pub last_changed : Option Days
  pub min_days : Option Days
  pub max_days : Option Days
  pub warn_days : Option Days
  pub inactive_days : Option Days
  pub expire_date : Option Days

pub record GroupEntry : Type 0 where
  pub name : Text
  pub gid : ℕ
  pub members : List Text
  pub permissions : List ℕ

pub record UserStore : Type 0 where
  pub users : List UserRecord
  pub shadows : List ShadowEntry
  pub groups : List GroupEntry
  pub name_index : Map Text ℕ
  pub uid_index : Map ℕ ℕ

abbrev pub empty_store : UserStore
empty_store = record { users = []; shadows = []; groups = []; name_index = []; uid_index = [] }

unfoldable pub is_system_user : UserRecord → Bool
is_system_user u = ltb u.uid 1000

-- `self.users[idx]`: an index out of range is a panic, `none` here.
unfoldable pub lookup_by_name : UserStore → Text → Option UserRecord
lookup_by_name s name = Option.bind (Map.get name s.name_index) (λ i. get_elem? s.users i)

unfoldable pub lookup_by_uid : UserStore → ℕ → Option UserRecord
lookup_by_uid s uid = Option.bind (Map.get uid s.uid_index) (λ i. get_elem? s.users i)

unfoldable pub group : UserStore → ℕ → Option GroupEntry
group s gid = find (λ g. g.gid == gid) s.groups

unfoldable pub group_by_name : UserStore → Text → Option GroupEntry
group_by_name s name = find (λ g. g.name == name) s.groups

unfoldable pub shadow_for : UserStore → Text → Option ShadowEntry
shadow_for s username = find (λ e. e.username == username) s.shadows

-- the loop of `groups_for` over the groups
unfoldable pub add_memberships : Text → List GroupEntry → List Text → List Text
add_memberships username [] result = result
add_memberships username (g ∷ gs) result = add_memberships username gs (
    if any (λ m. m == username) g.members && not (Set.contains g.name result)
    then result ++ g.name ∷ []
    else result)

unfoldable pub groups_for : UserStore → UserRecord → List Text
unfolding add_memberships
groups_for s user =
    let start : List Text = elim (find (λ g. g.gid == user.gid) s.groups) [
      | none ↦ []
      | some g ↦ g.name ∷ []
    ] in
    add_memberships user.username s.groups start

unfoldable pub user_in_group : UserStore → UserRecord → Text → Bool
unfolding groups_for
user_in_group s user group_name = any (λ g. g == group_name) (groups_for s user)
