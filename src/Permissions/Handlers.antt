-- ===== src/Permissions/Handlers.antt =====
-- The message handlers of crates/primitives/src/permissions.rs. `none` stands for a registry without
-- the store. The parser of a message's payload belongs to crates/ipc: a payload comes parsed, or as
-- the text of the parser's error. Of the answer to a listing the model keeps the rows.
use rind.Prelude.{
  ℕ, ◌⊎◌, inl, inr, Bool, true, false, Option, none, some, List, [], ◌∷◌, if◌then◌else◌,
}
use rind.Text.{Text}
use rind.Error.{CoreResult, err, custom, runtime_stopped}
use rind.Users.{group_by_name, lookup_by_name}
use rind.Permissions.{PermissionStore}
use rind.Permissions.Listing.{Row, all}
use rind.Permissions.Ipc.{
  PermissionPayload, grant_ungrant_ipc, IsDisjoint, grant_ungrant_ipc-IsDisjoint,
}

abbrev pub Parsed : Type 0
Parsed = Text ⊎ PermissionPayload

unfoldable pub change :
    Bool → Parsed → Option PermissionStore → CoreResult (List ℕ) × Option PermissionStore
change grant parsed none = (err runtime_stopped, none)
change grant (inl e) (some s) = (err (custom e), some s)
change grant (inr payload) (some s) = let r = grant_ungrant_ipc payload s grant in (r.0, some r.1)

unfoldable pub handle_ipc_grant_permission :
    Parsed → Option PermissionStore → CoreResult (List ℕ) × Option PermissionStore
unfolding change
handle_ipc_grant_permission = change true

unfoldable pub handle_ipc_revoke_permission :
    Parsed → Option PermissionStore → CoreResult (List ℕ) × Option PermissionStore
unfolding change
handle_ipc_revoke_permission = change false

-- the number of the payload's subject
unfoldable pub subject_id : PermissionPayload → PermissionStore → Option ℕ
subject_id payload s =
    if payload.group
    then elim (group_by_name s.users payload.subject) [ none ↦ none | some g ↦ some g.gid ]
    else elim (lookup_by_name s.users payload.subject) [ none ↦ none | some u ↦ some u.uid ]

unfoldable pub handle_ipc_show_permission : Parsed → Option PermissionStore → CoreResult (List Row)
unfolding subject_id
handle_ipc_show_permission parsed none = err runtime_stopped
handle_ipc_show_permission (inl e) (some s) = all none false s
handle_ipc_show_permission (inr payload) (some s) = all (subject_id payload s) payload.group s

-- A request of either kind, as it reaches the store.
pub data Request : Type 0 where
  grant revoke : Parsed → Request

unfoldable pub handle : Request → Option PermissionStore → Option PermissionStore
handle (grant parsed) s = (handle_ipc_grant_permission parsed s).1
handle (revoke parsed) s = (handle_ipc_revoke_permission parsed s).1

unfoldable pub handle_all : List Request → Option PermissionStore → Option PermissionStore
handle_all [] s = s
handle_all (request ∷ rest) s = handle_all rest (handle request s)

abbrev pub AllDisjoint : Option PermissionStore → Type 0
AllDisjoint none = Unit {0}
AllDisjoint (some s) = IsDisjoint s

change-AllDisjoint :
    (grants : Bool) (parsed : Parsed) (s : Option PermissionStore)
    → AllDisjoint s
    → AllDisjoint (change grants parsed s).1
unfolding change
change-AllDisjoint grants parsed none h = tt
change-AllDisjoint grants (inl e) (some s) h = h
change-AllDisjoint grants (inr payload) (some s) h = grant_ungrant_ipc-IsDisjoint payload s grants h

-- Any sequence of grant and revoke messages, handled with success or not, keeps it that no
-- permission is both granted to and revoked from a user or a group.
pub handle_all-AllDisjoint :
    (requests : List Request) (s : Option PermissionStore)
    → AllDisjoint s
    → AllDisjoint (handle_all requests s)
unfolding handle_all handle handle_ipc_grant_permission handle_ipc_revoke_permission
handle_all-AllDisjoint [] s h = h
handle_all-AllDisjoint (grant parsed ∷ rest) s h =
    handle_all-AllDisjoint rest _ (change-AllDisjoint true parsed s h)
handle_all-AllDisjoint (revoke parsed ∷ rest) s h =
    handle_all-AllDisjoint rest _ (change-AllDisjoint false parsed s h)
