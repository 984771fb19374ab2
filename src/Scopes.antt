-- ===== src/Scopes.antt =====
-- crates/primitives/src/scopes.rs: `ScopeStore`. The two global stores are arguments; their locks
-- are never poisoned.
pub mod Index
use rind.Prelude.{
  ◌≡◌, ◌≢◌, ◌⊎◌, inl, inr, refl, Bool, true, false, not, Option, none, some, List, [], ◌∷◌, map,
  if◌then◌else◌, Eq, ◌==◌, ==_refl, Option-cases, Bool-cases, arith,
}
use rind.Map
use rind.Map.{Map}
use rind.Text.{Text, codes, text_eq}
use mathlib.Core.Option

pub record ScopeInfo : Type 0 where
  pub name : Text
  pub attributes : Map Text Text
  pub lifetime_state : Option Text

-- `ScopeInfo::user` and `ScopeInfo::attr`
unfoldable pub attr : ScopeInfo → Text → Option Text
attr info key = Map.get key info.attributes

unfoldable pub user : ScopeInfo → Option Text
unfolding attr
user info = attr info (codes "user")

pub record ScopeStore : Type 0 where
  pub scopes : Map Text ScopeInfo
  pub state_to_scope : Map Text Text
  pub pending_scopes : List Text

abbrev pub empty_store : ScopeStore
empty_store = record { scopes = []; state_to_scope = []; pending_scopes = [] }

-- `Some(old_state) != lifetime_state.as_ref()`
unfoldable pub moved : Text → Option Text → Bool
moved old none = true
moved old (some new) = not (old == new)

-- the mapping of an existing scope's old state goes
unfoldable pub unmap_old : Option ScopeInfo → Option Text → Map Text Text → Map Text Text
unfolding moved
unmap_old none state m = m
unmap_old (some existing) state m = elim existing.lifetime_state [
  | none ↦ m
  | some old ↦ if moved old state then Map.remove old m else m
]

unfoldable pub map_new : Text → Option Text → Map Text Text → Map Text Text
map_new name none m = m
map_new name (some state) m = Map.insert state name m

-- `upsert`, also `upsert_global`
unfoldable pub upsert : Text → Map Text Text → Option Text → ScopeStore → ScopeStore
unfolding unmap_old map_new
upsert name attributes state s = record s {
  state_to_scope = map_new name state (unmap_old (Map.get name s.scopes) state s.state_to_scope);
  scopes =
      Map.insert name (record { name = name; attributes = attributes; lifetime_state = state })
        s.scopes;
}

unfoldable pub by_name : ScopeStore → Text → Option ScopeInfo
by_name s scope = Map.get scope s.scopes

unfoldable pub unmap : Option Text → Map Text Text → Map Text Text
unmap none m = m
unmap (some state) m = Map.remove state m

-- `remove_scope`, also `remove_scope_global`
unfoldable pub remove_scope : Text → ScopeStore → Bool × ScopeStore
unfolding unmap
remove_scope scope s = elim (Map.get scope s.scopes) [
  | none ↦ (false, s)
  | some info ↦ (
    true,
    record s {
      scopes = Map.remove scope s.scopes;
      state_to_scope = unmap info.lifetime_state s.state_to_scope;
    },
  )
]

unfoldable pub scope_for_state : ScopeStore → Text → Option Text
scope_for_state s state = Map.get state s.state_to_scope

-- `has_global`, `user_for_scope`, `attrs_for_scope`
unfoldable pub has_global : ScopeStore → Text → Bool
has_global s name = Map.contains_key name s.scopes

unfoldable pub user_for_scope : ScopeStore → Text → Option Text
unfolding by_name user
user_for_scope s scope = elim (by_name s scope) [ none ↦ none | some info ↦ user info ]

unfoldable pub attrs_for_scope : ScopeStore → Text → Option (Map Text Text)
unfolding by_name
attrs_for_scope s scope = elim (by_name s scope) [ none ↦ none | some info ↦ some info.attributes ]

-- `list`, also `list_global`
unfoldable pub list : ScopeStore → List ScopeInfo
list s = map (λ e. e.1) s.scopes

-- `desired_scope_upsert` and `desired_scope_remove`
unfoldable pub desired_scope_upsert :
    Text → Map Text Text → Option Text → Map Text ScopeInfo → Map Text ScopeInfo
desired_scope_upsert name attributes state specs =
    Map.insert name (record { name = name; attributes = attributes; lifetime_state = state }) specs

unfoldable pub desired_scope_remove : Text → Map Text ScopeInfo → Map Text ScopeInfo
desired_scope_remove name specs = Map.remove name specs
