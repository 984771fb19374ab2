-- ===== src/Pam.antt =====
-- crates/core/src/user.rs: `PamHandle`, from `PamError` on. An `Instant` is a number of nanoseconds
-- that the caller reads off the clock; the locks are never poisoned. The counter of session ids is
-- a static of the source, an argument here. The checks of the crates sha_crypt and yescrypt are
-- parameters.
pub mod Lockout
pub mod Sessions
use rind.Prelude.{
  ℕ, ◌+◌, ◌-◌, ◌%◌, Bool, true, false, Option, none, some, List, [], ◌∷◌, ◌++◌, map, filter, any,
  is_empty, not, if◌then◌else◌, ltb, leb, ◌||◌, Eq, ◌==◌, nat_eq,
}
use rind.Bytes.{u32_mod}
use rind.Map
use rind.Map.{Map}
use rind.Text.{Text, codes, text_eq}
use rind.Text.Split.{starts_with}
use rind.Users.{UserRecord, ShadowEntry, UserStore, lookup_by_name, shadow_for}
use rind.Users.Parse
use rind.Users.Parse.{is_locked, is_expired}

pub data PamError : Type 0 where
  user_not_found account_locked account_expired password_expired authentication_failed : PamError
  max_retries_exceeded : PamError
  session_error internal_error : Text → PamError

-- `Display`
unfoldable pub fmt : PamError → Text
fmt user_not_found = codes "user not found"
fmt account_locked = codes "account is locked"
fmt account_expired = codes "account has expired"
fmt password_expired = codes "password has expired"
fmt authentication_failed = codes "authentication failed"
fmt max_retries_exceeded = codes "maximum login retries exceeded"
fmt (session_error e) = codes "session error: " ++ e
fmt (internal_error e) = codes "internal error: " ++ e

pub data PamResult {ℓ} (A : Type ℓ) : Type ℓ where
  ok : A → PamResult A
  err : PamError → PamResult A

infixl 5 ◌>>=◌
abbrev pub ◌>>=◌ : {S T : Type 0} → PamResult S → (S → PamResult T) → PamResult T
ok found >>= next = next found
err why >>= next = err why

abbrev pub ok_or : {S : Type 0} → PamError → Option S → PamResult S
ok_or why (some found) = ok found
ok_or why none = err why

-- What `verify_password` asks of sha_crypt and yescrypt, the password first.
pub record Crypt : Type 1 where
  pub sha512_check : Text → Text → Bool
  pub sha256_check : Text → Text → Bool
  pub PasswordHash : Type 0
  pub from_str : Text → Option PasswordHash
  pub yescrypt_verify : Text → PasswordHash → Bool

-- `$6$`, `$5$` and `$y$`
abbrev sha512_tag : Text
sha512_tag = 36 ∷ 54 ∷ 36 ∷ []

abbrev sha256_tag : Text
sha256_tag = 36 ∷ 53 ∷ 36 ∷ []

abbrev yescrypt_tag : Text
yescrypt_tag = 36 ∷ 121 ∷ 36 ∷ []

unfoldable pub verify_password : Crypt → Text → Text → Bool
unfolding starts_with
verify_password crypt password hash =
    if is_empty hash || hash == codes "!" || hash == codes "*" || hash == codes "!!"
    then false
    else (if starts_with sha512_tag hash
        then crypt.sha512_check password hash
        else (if starts_with sha256_tag hash
            then crypt.sha256_check password hash
            else (if starts_with yescrypt_tag hash
                then elim (crypt.from_str hash) [
                  | none ↦ false
                  | some parsed ↦ crypt.yescrypt_verify password parsed
                ]
                else false)))

pub record PamSession : Type 0 where
  pub id : ℕ
  pub username : Text
  pub tty : Text
  pub started_at : ℕ

pub record LockoutState : Type 0 where
  pub failed_attempts : ℕ
  pub last_failure : Option ℕ

pub record PamConfig : Type 0 where
  pub max_retries : ℕ
  pub lockout_duration : ℕ

-- five failures, then a minute
abbrev pub default_config : PamConfig
default_config = record { max_retries = 5; lockout_duration = 60000000000 }

pub record PamHandle : Type 0 where
  pub store : UserStore
  pub config : PamConfig
  pub sessions : Map ℕ PamSession
  pub lockouts : Map Text LockoutState

-- `with_config`; `new` gives the default
unfoldable pub with_config : UserStore → PamConfig → PamHandle
with_config store config = record { store = store; config = config; sessions = []; lockouts = [] }

-- `last.elapsed()` stops at 0.
unfoldable pub check_lockout : ℕ → Text → PamHandle → PamResult (Unit {0})
check_lockout now username h = elim (Map.get username h.lockouts) [
  | none ↦ ok tt
  | some state ↦
      if leb h.config.max_retries state.failed_attempts
      then elim state.last_failure [
        | none ↦ ok tt
        | some last ↦
            if ltb (now - last) h.config.lockout_duration then err max_retries_exceeded else ok tt
      ]
      else ok tt
]

abbrev no_failure : LockoutState
no_failure = record { failed_attempts = 0; last_failure = none }

unfoldable pub record_failure : ℕ → Text → PamHandle → PamHandle
record_failure now username h =
    let state = Map.get_or username no_failure h.lockouts in
    record h {
      lockouts =
          Map.insert username
            (record {
              failed_attempts = (state.failed_attempts + 1) % u32_mod;
              last_failure = some now;
            })
            h.lockouts;
    }

unfoldable pub clear_lockout : Text → PamHandle → PamHandle
clear_lockout username h = record h { lockouts = Map.remove username h.lockouts }

-- the password check of `pam_authenticate`, and what it does to the lockouts
unfoldable pub check_password :
    Crypt
    → ℕ
    → Text
    → Text
    → UserRecord
    → ShadowEntry
    → PamHandle
    → PamResult UserRecord × PamHandle
check_password crypt failed_at username password user shadow h =
    if is_locked shadow
    then (err account_locked, h)
    else (if verify_password crypt password shadow.password_hash
        then (ok user, clear_lockout username h)
        else (err authentication_failed, record_failure failed_at username h))

-- The clock reads `now` at the start of the call and `failed_at` where a failure is recorded.
unfoldable pub pam_authenticate :
    Crypt → ℕ → ℕ → Text → Text → PamHandle → PamResult UserRecord × PamHandle
pam_authenticate crypt now failed_at username password h = elim (check_lockout now username h) [
  | err why ↦ (err why, h)
  | ok _ ↦ elim (lookup_by_name h.store username) [
    | none ↦ (err user_not_found, h)
    | some user ↦ elim (shadow_for h.store username) [
      | none ↦ (err user_not_found, h)
      | some shadow ↦ check_password crypt failed_at username password user shadow h
    ]
  ]
]

unfoldable pub pam_authenticate_auto : Text → PamHandle → PamResult UserRecord
pam_authenticate_auto username h = do
  user ← ok_or user_not_found (lookup_by_name h.store username)
  shadow ← ok_or user_not_found (shadow_for h.store username)
  if is_locked shadow then err account_locked else ok user

unfoldable pub pam_acct_mgmt : ℕ → Text → PamHandle → PamResult (Unit {0})
pam_acct_mgmt today username h = do
  shadow ← ok_or user_not_found (shadow_for h.store username)
  (if is_locked shadow
      then err account_locked
      else (if is_expired today shadow
          then err account_expired
          else (if Parse.password_expired today shadow then err password_expired else ok tt)))

abbrev pub u64_mod : ℕ
u64_mod = 18446744073709551616

-- The session, the handle and the counter after the call.
unfoldable pub pam_open_session :
    ℕ → ℕ → Text → Text → PamHandle → PamResult (PamSession × PamHandle × ℕ)
pam_open_session now counter username tty h = do
  _ ← ok_or user_not_found (lookup_by_name h.store username)
  let session : PamSession = record {
    id = counter;
    username = username;
    tty = tty;
    started_at = now;
  }
  ok (
    session,
    record h { sessions = Map.insert counter session h.sessions },
    (counter + 1) % u64_mod,
  )

unfoldable pub pam_close_session : ℕ → PamHandle → PamResult PamHandle
pam_close_session id h = elim (Map.get id h.sessions) [
  | none ↦ err (session_error (codes "session not found"))
  | some _ ↦ ok (record h { sessions = Map.remove id h.sessions })
]

unfoldable pub sessions_for : Text → PamHandle → List PamSession
sessions_for username h = filter (λ s. s.username == username) (map (λ e. e.1) h.sessions)

unfoldable pub has_active_session : Text → PamHandle → Bool
has_active_session username h = any (λ s. s.username == username) (map (λ e. e.1) h.sessions)
