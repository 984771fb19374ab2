-- ===== src/Pam/Sessions.antt =====
-- The sessions of `PamHandle` in crates/core/src/user.rs and the counter of their ids.
use rind.Prelude.{
  ℕ, ◌+◌, ◌<◌, ◌≡◌, inl, inr, refl, ap, none, some, ◌==◌, ==_iff, ==_refl, nat_eq, Bool-cases,
  Option-cases, arith,
}
use native.Mathlib.Nat.{mod-eq_of_lt}
use rind.Map
use rind.Text.{Text}
use rind.Users.{UserRecord, lookup_by_name}
use rind.Pam.{ok, PamSession, PamHandle, pam_open_session, pam_close_session, u64_mod}

-- Every session has an id below the counter.
abbrev pub IsBelow : ℕ → PamHandle → Type 0
IsBelow counter h = (id : ℕ) (s : PamSession) → Map.get id h.sessions ≡ some s → id < counter

absent : (counter : ℕ) (h : PamHandle) → IsBelow counter h → Map.get counter h.sessions ≡ none
absent counter h below = elim (Option-cases (Map.get counter h.sessions)) [
  | inl none_yet ↦ none_yet
  | inr (s, found) ↦ absurd (omega (arith, below counter s found))
]

module _ (now counter : ℕ) (username tty : Text) (h : PamHandle) where
  abbrev session : PamSession
  session = record { id = counter; username = username; tty = tty; started_at = now }

  abbrev with_session : PamHandle
  with_session = record h { sessions = Map.insert counter session h.sessions }

  open_value :
      (u : UserRecord)
      → counter + 1 < u64_mod
      → lookup_by_name h.store username ≡ some u
      → pam_open_session now counter username tty h ≡ ok (session, with_session, counter + 1)
  unfolding pam_open_session
  open_value u small known =
      rw (known, pam_open_session) (ap (λ c. ok (session, with_session, c)) (mod-eq_of_lt small))

  with_session-IsBelow : IsBelow counter h → IsBelow (counter + 1) with_session
  with_session-IsBelow below id s found = elim (Bool-cases (counter == id)) [
    | inl same ↦ let equal : counter ≡ id = (==_iff counter id).0 same in omega (arith, equal)
    | inr other ↦
        let before : id < counter =
          below id s (ground (arith, Map.get-insert counter id session h.sessions)) in
        omega arith
  ]

  close_value :
      pam_close_session counter with_session
      ≡ ok (record with_session { sessions = Map.remove counter with_session.sessions })
  unfolding pam_close_session
  close_value =
      let there : Map.get counter with_session.sessions ≡ some session =
        ground (arith, Map.get-insert counter counter session h.sessions, ==_refl counter) in
      rw (there, pam_close_session) refl

  closed_get :
      IsBelow counter h
      → (id : ℕ) → Map.get id (Map.remove counter with_session.sessions) ≡ Map.get id h.sessions
  closed_get below id = ground (
    arith,
    Map.get-remove counter id with_session.sessions,
    Map.get-insert counter id session h.sessions,
    ==_iff counter id,
    absent counter h below,
  )

  -- For a known user, a counter above every session id and its successor below 2^64: a session
  -- opens under an id that no session had, the ids stay below the new counter, and closing it
  -- leaves every lookup of a session as it was before.
  pub pam_open_session-pam_close_session :
      (u : UserRecord)
      → counter + 1 < u64_mod
      → lookup_by_name h.store username ≡ some u
      → IsBelow counter h
      → (s : PamSession) × (h' : PamHandle) × (h'' : PamHandle) × (pam_open_session now counter
            username tty h
          ≡ ok (s, h', counter + 1))
        × (Map.get s.id h.sessions ≡ none)
        × IsBelow (counter + 1) h'
        × (pam_close_session s.id h' ≡ ok h'')
        × ((id : ℕ) → Map.get id h''.sessions ≡ Map.get id h.sessions)
  pam_open_session-pam_close_session u small known below = (
    session,
    with_session,
    record with_session { sessions = Map.remove counter with_session.sessions },
    open_value u small known,
    absent counter h below,
    with_session-IsBelow below,
    close_value,
    closed_get below,
  )
