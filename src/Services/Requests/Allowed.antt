-- ===== src/Services/Requests/Allowed.antt =====
-- What `handle_ipc_start` and `handle_ipc_stop` answer, and to whom.
use rind.Prelude.{
  ℕ, ◌≡◌, refl, sym, ap, ◌⊎◌, inl, inr, Bool, true, false, Option, none, some, List, if◌then◌else◌,
  nat_eq, Option-cases,
}
use mathlib.Core.Option
use rind.Text.{Text, text_eq}
use rind.Error.{CoreResult, ok, err, permission_denied}
use rind.Users.{UserRecord, lookup_by_uid}
use rind.Permissions.{PermissionStore}
use rind.Services.Requests.{
  Managed, SsPayload, Action, is_privileged, can_manage, limited_to, guarded, start_actions,
  stop_actions, handle_ipc_start, handle_ipc_stop,
}
use rind.Services.Requests.Managers.{IsPrivileged, CanManage, is_privileged_iff, can_manage_iff}

-- The limit of an action: none for the privileged, and the caller for all others.
abbrev pub IsLimit : PermissionStore → ℕ → Option Text → Type 0
IsLimit pm uid limit =
    (IsPrivileged pm uid × (limit ≡ none))
    ⊎ (¬ IsPrivileged pm uid
        × ((caller : UserRecord) × (lookup_by_uid pm.users uid ≡ some caller)
            × (limit ≡ some (caller.username))))

-- The answer to a request: who may manage the service gets the actions, and all others nothing.
abbrev pub IsAnswer :
    PermissionStore
    → ℕ
    → Option Managed
    → (Option Text → List Action × Text)
    → CoreResult (List Action × Text)
    → Type 0
IsAnswer pm uid svc act r =
    (CanManage pm uid svc × ((limit : Option Text) × IsLimit pm uid limit × (r ≡ ok (act limit))))
    ⊎ (¬ CanManage pm uid svc × (r ≡ err permission_denied))

module _ (fuel : ℕ) (pm : PermissionStore) (uid : ℕ) (payload : SsPayload)
    (find : Text → Option Managed) where
  limited_to-IsLimit :
      (p : Bool)
      → is_privileged fuel pm uid ≡ some p
      → CanManage pm uid (find payload.name)
      → IsLimit pm uid (limited_to p (lookup_by_uid pm.users uid))
  unfolding limited_to
  limited_to-IsLimit true h c = inl ((is_privileged_iff fuel pm uid true h).0 refl, refl)
  limited_to-IsLimit false h (inl p) =
      let k : false ≡ true = (is_privileged_iff fuel pm uid false h).1 p in cc
  limited_to-IsLimit false h (inr m) = inr (
    λ p. let k : false ≡ true = (is_privileged_iff fuel pm uid false h).1 p in cc,
    (m.0, m.2, ap (limited_to false) m.2),
  )

  answered :
      (act : SsPayload → Option Text → List Action × Text) (r : CoreResult (List Action × Text))
      (b p : Bool)
      → can_manage fuel pm uid (find payload.name) ≡ some b
      → is_privileged fuel pm uid ≡ some p
      → (if b
          then some (ok (act payload (limited_to p (lookup_by_uid pm.users uid))))
          else some (err permission_denied))
        ≡ some r
      → IsAnswer pm uid (find payload.name) (act payload) r
  answered act r true p e f h =
      let may = (can_manage_iff fuel pm uid (find payload.name) true e).0 refl in
      inl (may, (_, limited_to-IsLimit p f may, sym (Option.some-injective _ r h)))
  answered act r false p e f h = inr (
    λ c. let k : false ≡ true = (can_manage_iff fuel pm uid (find payload.name) false e).1 c in cc,
    sym (Option.some-injective _ r h),
  )

  guarded-IsAnswer :
      (act : SsPayload → Option Text → List Action × Text) (r : CoreResult (List Action × Text))
      → guarded fuel pm (some uid) (inr payload) find act ≡ some r
      → IsAnswer pm uid (find payload.name) (act payload) r
  unfolding guarded
  guarded-IsAnswer act r h = elim (Option-cases (can_manage fuel pm uid (find payload.name))) [
    | inl never ↦ let k = rw (guarded, never) at h in cc
    | inr (b, e) ↦ elim (Option-cases (is_privileged fuel pm uid)) [
      | inl never ↦ let k = rw (guarded, e, never) at h in cc
      | inr (p, f) ↦ answered act r b p e f (rw (guarded, e, f) at h)
    ]
  ]

  -- Where the look-ups of handle_ipc_start and handle_ipc_stop end for a caller with a user id and
  -- a message that is read: both are refused with PermissionDenied exactly where the caller lacks
  -- the permission over all services and is no known user who manages the declared service by a
  -- permission that it names or, where it names none, by its space. Otherwise the actions are
  -- dispatched, limited to the user of the caller exactly where the caller lacks the permission
  -- over all services.
  pub handle_ipc-IsAnswer :
      (begun ended : CoreResult (List Action × Text))
      → handle_ipc_start fuel pm (some uid) (inr payload) find ≡ some begun
      → handle_ipc_stop fuel pm (some uid) (inr payload) find ≡ some ended
      → IsAnswer pm uid (find payload.name) (start_actions payload) begun
        × IsAnswer pm uid (find payload.name) (stop_actions payload) ended
  unfolding handle_ipc_start handle_ipc_stop
  handle_ipc-IsAnswer begun ended h k =
      (guarded-IsAnswer start_actions begun h, guarded-IsAnswer stop_actions ended k)
