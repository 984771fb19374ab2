-- ===== src/Users/Parse.antt =====
-- The line parsers of crates/core/src/user.rs: a line of /etc/passwd, /etc/shadow and /etc/group.
use rind.Prelude.{
  ℕ, ◌-◌, ◌+◌, ◌*◌, Bool, true, false, Option, none, some, List, [], ◌∷◌, map, filter,
  if◌then◌else◌, not, is_empty, nat_beq, ltb, leb, ◌&&◌, ◌||◌,
}
use rind.Bytes.{u32_mod}
use rind.Text.{Text, text_eq}
use rind.Text.Split.{splitn, split, trim, lines, starts_with}
use rind.Text.Number.{parse_digits, parse_unsigned}
use rind.Users.{UserRecord, ShadowEntry, GroupEntry, Days, days, before_epoch}

-- `?` on an option
infixl 5 ◌>>=◌
abbrev ◌>>=◌ : {S T : Type 0} → Option S → (S → Option T) → Option T
some found >>= next = next found
none >>= next = none

abbrev i64_bound : ℕ
i64_bound = 9223372036854775808

-- `UserRecord::from_passwd_line`, from the parts that `splitn(7, ':')` gives
unfoldable pub passwd_parts : List Text → Option UserRecord
passwd_parts (name ∷ password ∷ uid ∷ gid ∷ gecos ∷ home ∷ shell ∷ []) = do
  uid' ← parse_unsigned u32_mod uid
  gid' ← parse_unsigned u32_mod gid
  some (record {
    username = name;
    uid = uid';
    gid = gid';
    gecos = gecos;
    home = home;
    shell = shell;
    permissions = [];
  })
passwd_parts _ = none

unfoldable pub from_passwd_line : Text → Option UserRecord
unfolding passwd_parts
from_passwd_line line = passwd_parts (splitn 7 b':' line)

-- `s.parse::<i64>().ok()`, `none` at an empty text; `before_epoch n` is -(n + 1)
unfoldable pub parse_days : Text → Option Days
parse_days [] = none
parse_days (c ∷ s) =
    if nat_beq c b'-'
    then (if is_empty s then none else elim (parse_digits (i64_bound + 1) 0 s) [
      | none ↦ none
      | some n ↦ if nat_beq n 0 then some (days 0) else some (before_epoch (n - 1))
    ])
    else elim (parse_unsigned i64_bound (c ∷ s)) [ none ↦ none | some n ↦ some (days n) ]

-- `ShadowEntry::from_shadow_line`, from the parts of `splitn(9, ':')`: eight, or a ninth that is
-- not read
unfoldable pub shadow_parts : List Text → Option ShadowEntry
unfolding parse_days
shadow_parts (name ∷ hash ∷ last ∷ least ∷ most ∷ warn ∷ inactive ∷ expire ∷ _) = some (record {
  username = name;
  password_hash = hash;
  last_changed = parse_days last;
  min_days = parse_days least;
  max_days = parse_days most;
  warn_days = parse_days warn;
  inactive_days = parse_days inactive;
  expire_date = parse_days expire;
})
shadow_parts _ = none

unfoldable pub from_shadow_line : Text → Option ShadowEntry
unfolding shadow_parts
from_shadow_line line = shadow_parts (splitn 9 b':' line)

-- `GroupEntry::from_group_line`, from the parts of `splitn(4, ':')`
unfoldable pub group_parts : List Text → Option GroupEntry
group_parts (name ∷ password ∷ gid ∷ members ∷ []) = do
  gid' ← parse_unsigned u32_mod gid
  some (record {
    name = name;
    gid = gid';
    members = map trim (filter (λ m. not (is_empty m)) (split b',' members));
    permissions = [];
  })
group_parts _ = none

unfoldable pub from_group_line : Text → Option GroupEntry
unfolding group_parts
from_group_line line = group_parts (splitn 4 b':' line)

-- `for line in text.lines()`, trimmed, without the empty lines and the comments
unfoldable pub entries : Text → List Text
entries text = filter (λ l. not (is_empty l || starts_with (b'#' ∷ []) l)) (map trim (lines text))

-- `ShadowEntry::is_locked`
unfoldable pub is_locked : ShadowEntry → Bool
is_locked e =
    is_empty e.password_hash
    || starts_with (b'!' ∷ []) e.password_hash
    || starts_with (b'*' ∷ []) e.password_hash

-- `ShadowEntry::is_expired`; `days_since_epoch()` is an argument.
unfoldable pub is_expired : ℕ → ShadowEntry → Bool
is_expired today e = elim e.expire_date [
  | none ↦ false
  | some expire ↦ elim expire [ days d ↦ ltb 0 d && leb d today | before_epoch _ ↦ false ]
]

-- `last + max` of two `i64`; a sum that passes the bound wraps to a date before the epoch.
abbrev pub expiry : Days → ℕ → Days
expiry (days l) m =
    if leb i64_bound (l + m) then before_epoch (2 * i64_bound - (l + m) - 1) else days (l + m)
expiry (before_epoch l) m = if ltb l m then days (m - l - 1) else before_epoch (l - m)

-- `ShadowEntry::password_expired`
unfoldable pub password_expired : ℕ → ShadowEntry → Bool
password_expired today e = elim e.last_changed [
  | none ↦ false
  | some last ↦ elim e.max_days [
    | none ↦ false
    | some most ↦ elim most [
      | before_epoch _ ↦ false
      | days m ↦ ltb 0 m && elim (expiry last m) [ days d ↦ leb d today | before_epoch _ ↦ true ]
    ]
  ]
]
