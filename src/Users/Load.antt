-- ===== src/Users/Load.antt =====
-- `UserStore::load` of crates/core/src/user.rs. The files come as an argument: their contents, or
-- `none` for a file that cannot be read; for the permission file `none` is one that does not exist.
use rind.Prelude.{
  ℕ, zero, suc, Bool, true, false, Option, none, some, List, [], ◌∷◌, ◌++◌, nat_beq, filter_map,
  length, nat_eq,
}
use rind.Bytes.{u16_from_le, u32_from_le}
use rind.Map
use rind.Map.{Map}
use rind.Text.{Text, codes, text_eq}
use rind.Error.{CoreResult, ok, err, unexpected_eof, failed_to_read, ◌>>=◌}
use rind.Users.{UserRecord, GroupEntry, UserStore, empty_store}
use rind.Users.Parse.{entries, from_passwd_line, from_shadow_line, from_group_line}

pub record PermMaps : Type 0 where
  pub user_perms : Map ℕ (List ℕ)
  pub group_perms : Map ℕ (List ℕ)

abbrev pub no_perms : PermMaps
no_perms = record { user_perms = []; group_perms = [] }

-- the inner loop: `count` permissions of two bytes, and the bytes behind them
unfoldable pub read_ids : ℕ → List ℕ → CoreResult (List ℕ × List ℕ)
read_ids zero bs = ok ([], bs)
read_ids (suc n) (a ∷ b ∷ bs) = do (ids, rest) ← read_ids n bs; ok (u16_from_le a b ∷ ids, rest)
read_ids (suc n) _ = err unexpected_eof

-- One record: its kind, its number and its permissions.
unfoldable pub read_record : List ℕ → CoreResult (Bool × ℕ × List ℕ × List ℕ)
unfolding read_ids
read_record (t ∷ a ∷ b ∷ c ∷ d ∷ e ∷ f ∷ bs) = do
  (ids, rest) ← read_ids (u16_from_le e f) bs
  ok (nat_beq t 0, u32_from_le a b c d, ids, rest)
read_record _ = err unexpected_eof

unfoldable pub add_record : Bool → ℕ → List ℕ → PermMaps → PermMaps
add_record true id ids m = record m { user_perms = Map.insert id ids m.user_perms }
add_record false id ids m = record m { group_perms = Map.insert id ids m.group_perms }

-- `while cursor.position() < len`, with fuel; a record takes bytes, so the length is enough.
unfoldable pub read_perms : ℕ → List ℕ → PermMaps → CoreResult PermMaps
read_perms fuel [] m = ok m
read_perms zero (b ∷ bs) m = err unexpected_eof
read_perms (suc fuel) (b ∷ bs) m = do
  (is_user, id, ids, rest) ← read_record (b ∷ bs)
  read_perms fuel rest (add_record is_user id ids m)

unfoldable pub parse_perms : List ℕ → CoreResult PermMaps
unfolding read_perms
parse_perms bs = read_perms (length bs) bs no_perms

-- the body of the loop over the users of /etc/passwd
unfoldable pub add_user : UserRecord → UserStore × Map ℕ (List ℕ) → UserStore × Map ℕ (List ℕ)
add_user u (s, perms) =
    let idx = length s.users in
    let user : UserRecord = elim (Map.get u.uid perms) [
      | none ↦ u
      | some ps ↦ record u { permissions = ps }
    ] in
    (
      record s {
        users = s.users ++ user ∷ [];
        name_index = Map.insert u.username idx s.name_index;
        uid_index = Map.insert u.uid idx s.uid_index;
      },
      Map.remove u.uid perms,
    )

unfoldable pub add_users : List UserRecord → UserStore × Map ℕ (List ℕ) → UserStore × Map ℕ (List ℕ)
unfolding add_user
add_users [] sm = sm
add_users (u ∷ us) sm = add_users us (add_user u sm)

unfoldable pub add_groups : List GroupEntry → Map ℕ (List ℕ) → List GroupEntry
add_groups [] perms = []
add_groups (g ∷ gs) perms =
    elim (Map.get g.gid perms) [ none ↦ g | some ps ↦ record g { permissions = ps } ]
    ∷ add_groups gs (Map.remove g.gid perms)

pub record Files : Type 0 where
  pub passwd : Option Text
  pub shadow : Option Text
  pub group : Option Text
  pub perms : Option (List ℕ)

abbrev lines_or_none : {A : Type 0} → (Text → Option A) → Option Text → List A
lines_or_none parse none = []
lines_or_none parse (some text) = filter_map parse (entries text)

-- `UserStore::load`
unfoldable pub load : Files → CoreResult UserStore
unfolding parse_perms add_users add_groups
load files = do
  maps ← elim files.perms [ none ↦ ok no_perms | some bytes ↦ parse_perms bytes ]
  passwd ← elim files.passwd [ none ↦ err (failed_to_read (codes "passwd")) | some t ↦ ok t ]
  let start : UserStore × Map ℕ (List ℕ) = (empty_store, maps.user_perms)
  let store = (add_users (filter_map from_passwd_line (entries passwd)) start).0
  ok (record store {
    shadows = lines_or_none from_shadow_line files.shadow;
    groups = add_groups (lines_or_none from_group_line files.group) maps.group_perms;
  })
