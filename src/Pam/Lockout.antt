-- ===== src/Pam/Lockout.antt =====
-- The lockout of `PamHandle` in crates/core/src/user.rs: what lets a password through, and what
-- stops a caller after too many wrong ones.
use rind.Prelude.{
  ℕ, suc, ◌+◌, ◌-◌, ◌≤◌, ◌<◌, ◌≡◌, ◌↔◌, ◌⊎◌, inl, inr, refl, sym, ap, All, true, false, none, some,
  List, [], ◌∷◌, length, ==_refl, nat_eq, Option-cases, arith,
}
use rind.Bytes.{u32_mod}
use rind.Map
use rind.Map.{Map}
use rind.Text.{Text, text_eq}
use rind.Text.Split.{starts_with}
use rind.Users.{UserRecord, ShadowEntry, UserStore, lookup_by_name, shadow_for}
use rind.Users.Parse.{is_locked}
use rind.Pam.{
  PamError, PamResult, ok, err, Crypt, verify_password, LockoutState, PamHandle, check_lockout,
  record_failure, check_password, pam_authenticate, max_retries_exceeded, authentication_failed,
}

-- No password verifies against the hash of a locked shadow entry, whatever the checks of the hash
-- crates say.
verify_password-is_locked :
    (crypt : Crypt) (password : Text) (e : ShadowEntry)
    → is_locked e ≡ true
    → verify_password crypt password e.password_hash ≡ false
unfolding verify_password is_locked starts_with
verify_password-is_locked crypt password e h = ground arith

-- The tests that a login passes.
pub record Admits (crypt : Crypt) (now : ℕ) (username password : Text) (h : PamHandle)
    (u : UserRecord) : Type 0 where
  pub shadow : ShadowEntry
  pub not_stopped : check_lockout now username h ≡ ok tt
  pub known : lookup_by_name h.store username ≡ some u
  pub has_entry : shadow_for h.store username ≡ some shadow
  pub verified : verify_password crypt password shadow.password_hash ≡ true

PamResult-cases : (r : PamResult (Unit {0})) → (r ≡ ok tt) ⊎ ((why : PamError) × (r ≡ err why))
PamResult-cases (ok tt) = inl refl
PamResult-cases (err why) = inr (why, refl)

check_password-ok :
    (crypt : Crypt) (failed_at : ℕ) (username password : Text) (user u : UserRecord)
    (shadow : ShadowEntry) (h : PamHandle)
    → (check_password crypt failed_at username password user shadow h).0 ≡ ok u
    → (user ≡ u) × (verify_password crypt password shadow.password_hash ≡ true)
unfolding check_password
check_password-ok crypt failed_at username password user u shadow h e = ground arith

check_password-verified :
    (crypt : Crypt) (failed_at : ℕ) (username password : Text) (user : UserRecord)
    (shadow : ShadowEntry) (h : PamHandle)
    → verify_password crypt password shadow.password_hash ≡ true
    → (check_password crypt failed_at username password user shadow h).0 ≡ ok user
unfolding check_password
check_password-verified crypt failed_at username password user shadow h e =
    ground (arith, verify_password-is_locked crypt password shadow)

module _ (crypt : Crypt) (now failed_at : ℕ) (username password : Text) (h : PamHandle) where
  admitted :
      (u : UserRecord)
      → (pam_authenticate crypt now failed_at username password h).0 ≡ ok u
      → Admits crypt now username password h u
  unfolding pam_authenticate
  admitted u = elim (PamResult-cases (check_lockout now username h)) [
    | inr (why, stopped) ↦ λ e. absurd (ground arith)
    | inl free ↦ elim (Option-cases (lookup_by_name h.store username)) [
      | inl unknown ↦ λ e. absurd (ground arith)
      | inr (user, known) ↦ elim (Option-cases (shadow_for h.store username)) [
        | inl no_entry ↦ λ e. absurd (ground arith)
        | inr (shadow, has_entry) ↦ λ e.
            let (same, verified) =
              check_password-ok crypt failed_at username password user u shadow h (ground arith) in
            record {
              shadow = shadow;
              not_stopped = free;
              known = cc;
              has_entry = has_entry;
              verified = verified;
            }
      ]
    ]
  ]

  -- pam_authenticate returns a user exactly where the lockout lets the call through, the name is
  -- that of the user and has a shadow entry, and the password verifies against its hash.
  pub pam_authenticate-Admits :
      (u : UserRecord)
      → ((pam_authenticate crypt now failed_at username password h).0 ≡ ok u)
        ↔ Admits crypt now username password h u
  unfolding pam_authenticate
  pam_authenticate-Admits u = (
    admitted u,
    λ a.
        rw (a.not_stopped, a.known, a.has_entry, pam_authenticate)
          (check_password-verified crypt failed_at username password u a.shadow h a.verified),
  )

pam_authenticate-shut :
    (crypt : Crypt) (now failed_at : ℕ) (username password : Text) (h : PamHandle) {why : PamError}
    → check_lockout now username h ≡ err why
    → pam_authenticate crypt now failed_at username password h ≡ (err why, h)
unfolding pam_authenticate
pam_authenticate-shut crypt now failed_at username password h e = rw (e, pam_authenticate)

-- An attempt: a password and what the clock reads for it, at the start and where it fails.
abbrev pub Attempt : Type 0
Attempt = Text × ℕ × ℕ

-- the state of a user after `n` failures, the last at `t`
abbrev pub failed : ℕ → ℕ → LockoutState
failed n t = record { failed_attempts = n; last_failure = some t }

-- the failures that the handle has counted for a user
unfoldable pub failures : Text → PamHandle → ℕ
failures username h = elim (Map.get username h.lockouts) [
  | none ↦ 0
  | some state ↦ state.failed_attempts
]

abbrev pub last_time : ℕ → List Attempt → ℕ
last_time t [] = t
last_time t ((password, now, failed_at) ∷ rest) = last_time failed_at rest

check_lockout_below :
    (now : ℕ) (username : Text) (h : PamHandle)
    → failures username h < h.config.max_retries
    → check_lockout now username h ≡ ok tt
unfolding check_lockout failures
check_lockout_below now username h below = ground arith

record_failure-get :
    (now : ℕ) (username : Text) (h : PamHandle)
    → suc (failures username h) < u32_mod
    → Map.get username (record_failure now username h).lockouts
      ≡ some (failed (suc (failures username h)) now)
unfolding record_failure failures Map.get_or
record_failure-get now username h small = elim (Option-cases (Map.get username h.lockouts)) [
  | inl first ↦
      ground (arith, Map.get-insert username username (failed 1 now) h.lockouts, ==_refl username)
  | inr (state, before) ↦ ground (
    arith,
    Map.get-insert username username (failed (suc state.failed_attempts) now) h.lockouts,
    ==_refl username,
  )
]

module _ (crypt : Crypt) (username : Text) where
  unfoldable pub attempt_all : List Attempt → PamHandle → PamHandle
  attempt_all [] h = h
  attempt_all ((password, now, failed_at) ∷ rest) h =
      attempt_all rest (pam_authenticate crypt now failed_at username password h).1

  module _ (shadow : ShadowEntry) where
    -- The user is known and has an entry that is not locked.
    pub record Open (store : UserStore) : Type 0 where
      pub user : UserRecord
      pub known : lookup_by_name store username ≡ some user
      pub has_entry : shadow_for store username ≡ some shadow
      pub unlocked : is_locked shadow ≡ false

    abbrev pub Wrong : Attempt → Type 0
    Wrong a = verify_password crypt a.0 shadow.password_hash ≡ false

    wrong_attempt :
        (password : Text) (now failed_at : ℕ) (h : PamHandle)
        → Open h.store
        → verify_password crypt password shadow.password_hash ≡ false
        → failures username h < h.config.max_retries
        → pam_authenticate crypt now failed_at username password h
          ≡ (err authentication_failed, record_failure failed_at username h)
    unfolding pam_authenticate check_password
    wrong_attempt password now failed_at h o wrong below = rw (
      check_lockout_below now username h below,
      o.known,
      o.has_entry,
      o.unlocked,
      wrong,
      pam_authenticate,
      check_password,
    )

    attempt_all_wrong :
        (password : Text) (now failed_at : ℕ) (tries : List Attempt) (h : PamHandle)
        → Open h.store
        → verify_password crypt password shadow.password_hash ≡ false
        → failures username h < h.config.max_retries
        → attempt_all ((password, now, failed_at) ∷ tries) h
          ≡ attempt_all tries (record_failure failed_at username h)
    unfolding attempt_all
    attempt_all_wrong password now failed_at tries h o wrong below =
        ap (λ r. attempt_all tries r.1) (wrong_attempt password now failed_at h o wrong below)

    failures-get :
        (h : PamHandle) (n t : ℕ)
        → Map.get username h.lockouts ≡ some (failed n t)
        → failures username h ≡ n
    unfolding failures
    failures-get h n t e = rw (e, failures)

    attempts_counted :
        (tries : List Attempt) (h : PamHandle) (n t : ℕ)
        → Open h.store
        → All Wrong tries
        → h.config.max_retries < u32_mod
        → Map.get username h.lockouts ≡ some (failed n t)
        → n + length tries ≤ h.config.max_retries
        → (Map.get username (attempt_all tries h).lockouts
            ≡ some (failed (n + length tries) (last_time t tries)))
          × ((attempt_all tries h).config ≡ h.config)
    unfolding attempt_all record_failure
    attempts_counted [] h n t o w small e m =
        (rw e (ap (λ k. some (failed k t)) (omega arith)), refl)
    attempts_counted ((password, now, failed_at) ∷ tries) h n t o w small e m =
        let counted = failures-get h n t e in
        let step = attempt_all_wrong password now failed_at tries h o w.0 (omega arith) in
        let next : Map.get username (record_failure failed_at username h).lockouts
            ≡ some (failed (suc n) failed_at) =
          rw (sym counted) (record_failure-get failed_at username h (omega arith)) in
        let (found, same) =
          attempts_counted tries (record_failure failed_at username h) (suc n) failed_at o w.1 small
            next (omega arith) in
        rw step (ground (arith, found), same)

    stopped :
        (now t n : ℕ) (h : PamHandle)
        → Map.get username h.lockouts ≡ some (failed n t)
        → h.config.max_retries ≤ n
        → now - t < h.config.lockout_duration
        → check_lockout now username h ≡ err max_retries_exceeded
    unfolding check_lockout
    stopped now t n h e many soon = ground arith

    -- Let a known user have an unlocked entry, and let the failures counted and a run of at least
    -- one wrong password come to max_retries, which is below 2^32. Then, until lockout_duration
    -- has passed since the last failure, every password is refused with MaxRetriesExceeded and the
    -- handle stays as it is.
    pub pam_authenticate-lockout :
        (password : Text) (now failed_at : ℕ) (rest : List Attempt) (h : PamHandle)
        → Open h.store
        → Wrong (password, now, failed_at)
        → All Wrong rest
        → h.config.max_retries < u32_mod
        → failures username h + length rest + 1 ≡ h.config.max_retries
        → (any_password : Text) (later failed_later : ℕ)
        → later - last_time failed_at rest < h.config.lockout_duration
        → let h' = attempt_all ((password, now, failed_at) ∷ rest) h in
          pam_authenticate crypt later failed_later username any_password h'
          ≡ (err max_retries_exceeded, h')
    unfolding record_failure
    pam_authenticate-lockout password now failed_at rest h o wrong w small m any_password later
          failed_later soon =
        let step = attempt_all_wrong password now failed_at rest h o wrong (omega arith) in
        let (found, same) =
          attempts_counted rest (record_failure failed_at username h) (suc (failures username h))
            failed_at o w small (record_failure-get failed_at username h (omega arith))
            (omega arith) in
        let h' = attempt_all rest (record_failure failed_at username h) in
        let shut =
          stopped later (last_time failed_at rest) _ h' found
            (omega (arith, ap (λ c. c.max_retries) same))
            (omega (arith, ap (λ c. c.lockout_duration) same)) in
        rw step (pam_authenticate-shut crypt later failed_later username any_password h' shut)
