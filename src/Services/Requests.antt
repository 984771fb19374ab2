-- ===== src/Services/Requests.antt =====
-- `handle_ipc_start` and `handle_ipc_stop` of crates/services/src/services.rs: who may start and
-- stop a service by a message. The store of permissions is the one that the registry has or an
-- empty one; its look-ups recur along links and take fuel, and `none` is one that does not end.
pub mod Managers
pub mod Allowed
use rind.Prelude.{
  ℕ, Bool, true, false, ◌⊎◌, inl, inr, Option, none, some, List, [], ◌∷◌, ◌++◌, if◌then◌else◌, ◌==◌,
  nat_eq,
}
use rind.Text.{Text, codes, text_eq}
use rind.Error.{CoreResult, ok, err, custom, permission_denied}
use rind.Users.{UserRecord, lookup_by_uid}
use rind.Permissions.{PermissionStore, from_name}
use rind.Permissions.Check.{user_has}
use rind.Services.{ServiceSpace, system, user, user_selective}

-- `PERM_SYSTEM_SERVICES`
abbrev pub perm_system_services : ℕ
perm_system_services = 1000

-- what `find` gives of the service, with the fields that are read
pub record Managed : Type 0 where
  pub managed_by : Option (List Text)
  pub space : ServiceSpace

-- `SSPayload`, whose field `unit_type` is not read
pub record SsPayload : Type 0 where
  pub name : Text
  pub force : Bool
  pub persist : Bool

-- the action that a handler dispatches; one that fails to be dispatched ends the handler
pub data Action : Type 0 where
  start : (name : Text) (only_user : Option Text) → Action
  stop : (name : Text) (force : Bool) (only_user : Option Text) → Action
  -- `set_facet` and `remove_facet` of "rind:active"
  set_active : (payload : Text) → Action
  remove_active : (payload : Text) → Action

-- `any` over the names of permissions
unfoldable pub manages_by : ℕ → PermissionStore → ℕ → List Text → Option Bool
manages_by fuel pm uid [] = some false
manages_by fuel pm uid (name ∷ names) =
    let rest = manages_by fuel pm uid names in
    elim (from_name pm name) [
      | none ↦ rest
      | some id ↦ elim (user_has fuel pm uid id) [
        | none ↦ none
        | some b ↦ if b then some true else rest
      ]
    ]

unfoldable pub manages_space : UserRecord → ServiceSpace → Bool
manages_space caller user = true
manages_space caller (user_selective name) = name == caller.username
manages_space caller system = false

unfoldable pub manages : ℕ → PermissionStore → ℕ → Option UserRecord → Option Managed → Option Bool
unfolding manages_by manages_space
manages fuel pm uid none svc = some false
manages fuel pm uid (some caller) none = some false
manages fuel pm uid (some caller) (some svc) = elim svc.managed_by [
  | some names ↦ manages_by fuel pm uid names
  | none ↦ some (manages_space caller svc.space)
]

-- whether the caller is root or has the permission over all services
unfoldable pub is_privileged : ℕ → PermissionStore → ℕ → Option Bool
is_privileged fuel pm uid =
    if uid == 0 then some true else user_has fuel pm uid perm_system_services

unfoldable pub can_manage : ℕ → PermissionStore → ℕ → Option Managed → Option Bool
unfolding is_privileged manages
can_manage fuel pm uid svc = elim (is_privileged fuel pm uid) [
  | none ↦ none
  | some b ↦ if b then some true else manages fuel pm uid (lookup_by_uid pm.users uid) svc
]

-- the user that the action is limited to
unfoldable pub limited_to : Bool → Option UserRecord → Option Text
limited_to true caller = none
limited_to false none = none
limited_to false (some caller) = some (caller.username)

-- the guards of the handlers; `act` makes the answer of the limit
unfoldable pub guarded :
    ℕ
    → PermissionStore
    → Option ℕ
    → Text ⊎ SsPayload
    → (Text → Option Managed)
    → (SsPayload → Option Text → List Action × Text)
    → Option (CoreResult (List Action × Text))
unfolding can_manage limited_to
guarded fuel pm from_uid (inl e) find act = some (err (custom e))
guarded fuel pm none (inr payload) find act = some (err permission_denied)
guarded fuel pm (some uid) (inr payload) find act =
    elim (can_manage fuel pm uid (find payload.name)) [
      | none ↦ none
      | some b ↦ elim (is_privileged fuel pm uid) [
        | none ↦ none
        | some p ↦
            if b
            then some (ok (act payload (limited_to p (lookup_by_uid pm.users uid))))
            else some (err permission_denied)
      ]
    ]

abbrev pub start_actions : SsPayload → Option Text → List Action × Text
start_actions payload only_user = (
  start payload.name only_user ∷ (if payload.persist then set_active payload.name ∷ [] else []),
  codes "started " ++ payload.name,
)

abbrev pub stop_actions : SsPayload → Option Text → List Action × Text
stop_actions payload only_user = (
  stop payload.name payload.force only_user
      ∷ (if payload.persist then remove_active payload.name ∷ [] else []),
  codes "stopped " ++ payload.name,
)

unfoldable pub handle_ipc_start :
    ℕ
    → PermissionStore
    → Option ℕ
    → Text ⊎ SsPayload
    → (Text → Option Managed)
    → Option (CoreResult (List Action × Text))
unfolding guarded
handle_ipc_start fuel pm from_uid payload find = guarded fuel pm from_uid payload find start_actions

unfoldable pub handle_ipc_stop :
    ℕ
    → PermissionStore
    → Option ℕ
    → Text ⊎ SsPayload
    → (Text → Option Managed)
    → Option (CoreResult (List Action × Text))
unfolding guarded
handle_ipc_stop fuel pm from_uid payload find = guarded fuel pm from_uid payload find stop_actions
