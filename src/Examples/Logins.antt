-- ===== src/Examples/Logins.antt =====
-- The theorems about `PamHandle` of crates/core/src/user.rs at a store of one user.
use rind.Prelude.{ℕ, ◌≡◌, ◌↔◌, refl, true, false, none, some, List, [], ◌∷◌, ◌==◌, nat_eq, arith}
use mathlib.Core.Option
use rind.Map
use rind.Text.{Text, codes, text_eq}
use rind.Text.Split.{starts_with}
use rind.Users.{UserRecord, ShadowEntry, UserStore, lookup_by_name, shadow_for}
use rind.Users.Parse.{is_locked}
use rind.Pam.{
  Crypt, PamSession, PamHandle, ok, err, max_retries_exceeded, verify_password, pam_authenticate,
  pam_open_session, pam_close_session,
}
use rind.Pam.Lockout.{
  Attempt, Admits, Open, failures, attempt_all, pam_authenticate-Admits, pam_authenticate-lockout,
}
use rind.Pam.Sessions.{IsBelow, pam_open_session-pam_close_session}
use rind.Examples.Accounts.{person}

-- checks that take the text behind the tag for the password
abbrev plain : Crypt
plain = record {
  sha512_check = λ password hash. hash == (36 ∷ 54 ∷ 36 ∷ password);
  sha256_check = λ password hash. false;
  PasswordHash = Text;
  from_str = λ hash. none;
  yescrypt_verify = λ password hash. false;
}

abbrev carol : UserRecord
carol = person (codes "carol") 1002 []

abbrev carols : ShadowEntry
carols = record {
  username = codes "carol";
  password_hash = codes "$6$key";
  last_changed = none;
  min_days = none;
  max_days = none;
  warn_days = none;
  inactive_days = none;
  expire_date = none;
}

abbrev home : UserStore
home = record {
  users = carol ∷ [];
  shadows = carols ∷ [];
  groups = [];
  name_index = (codes "carol", 0) ∷ [];
  uid_index = (1002, 0) ∷ [];
}

abbrev desk : PamHandle
desk = record {
  store = home;
  config = record { max_retries = 2; lockout_duration = 60 };
  sessions = [];
  lockouts = [];
}

carol_known : lookup_by_name home (codes "carol") ≡ some carol
unfolding lookup_by_name Map.get Option.bind
carol_known = refl

carol_Open : Open plain (codes "carol") carols home
unfolding shadow_for is_locked starts_with
carol_Open = record { user = carol; known = carol_known; has_entry = refl; unlocked = refl }

wrong_guess : verify_password plain (codes "guess") carols.password_hash ≡ false
unfolding verify_password starts_with
wrong_guess = refl

no_failures : failures (codes "carol") desk ≡ 0
unfolding failures Map.get
no_failures = refl

abbrev guesses : List Attempt
guesses = (codes "guess", 10, 11) ∷ (codes "guess", 20, 21) ∷ []

pam_authenticate-lockout_example :
    pam_authenticate plain 50 51
      (codes "carol")
      (codes "key")
      (attempt_all plain (codes "carol") guesses desk)
    ≡ (err max_retries_exceeded, attempt_all plain (codes "carol") guesses desk)
pam_authenticate-lockout_example =
    pam_authenticate-lockout plain (codes "carol") carols (codes "guess") 10 11
      ((codes "guess", 20, 21) ∷ []) desk carol_Open wrong_guess (wrong_guess, tt) (omega arith)
      (omega (arith, no_failures)) (codes "key") 50 51 (omega arith)

pam_authenticate-Admits_example :
    ((pam_authenticate plain 1 2 (codes "carol") (codes "key") desk).0 ≡ ok carol)
    ↔ Admits plain 1 (codes "carol") (codes "key") desk carol
pam_authenticate-Admits_example =
    pam_authenticate-Admits plain 1 2 (codes "carol") (codes "key") desk carol

abbrev locked : ShadowEntry
locked = record carols { password_hash = codes "!$6$key" }

locked_entry : is_locked locked ≡ true
unfolding is_locked starts_with
locked_entry = refl

no_sessions : IsBelow 1 desk
unfolding Map.get
no_sessions id s found = absurd (ground arith)

pam_open_session-pam_close_session_example :
    (s : PamSession) × (h' : PamHandle) × (h'' : PamHandle) × (pam_open_session 5 1
        (codes "carol")
        (codes "tty1")
        desk
      ≡ ok (s, h', 2))
    × (Map.get s.id desk.sessions ≡ none)
    × IsBelow 2 h'
    × (pam_close_session s.id h' ≡ ok h'')
    × ((id : ℕ) → Map.get id h''.sessions ≡ Map.get id desk.sessions)
pam_open_session-pam_close_session_example =
    pam_open_session-pam_close_session 5 1 (codes "carol") (codes "tty1") desk carol (omega arith)
      carol_known no_sessions
