-- ===== src/Examples/Accounts.antt =====
-- The theorems about the permission file of crates/core/src/user.rs at a store of two users.
use rind.Prelude.{ℕ, ◌≡◌, refl, true, false, List, [], ◌∷◌, if◌then◌else◌, All, nat_eq, arith}
use rind.Map
use rind.Map.{Map}
use rind.Set
use rind.Text.{Text, codes}
use rind.Error.{ok}
use rind.Users.{UserRecord, GroupEntry, UserStore}
use rind.Users.Load.{PermMaps, parse_perms}
use rind.Users.Perms.{
  Overlay, user_effective, group_effective, write_users, write_record, write_groups,
  write_perms_with_overlay,
}
use rind.Users.Codec.{InRange}
use rind.Users.Reload.{DistinctIds, parse_perms-written}
use rind.Users.Effective.{contains_opt}

abbrev pub person : Text → ℕ → List ℕ → UserRecord
person name uid perms = record {
  username = name;
  uid = uid;
  gid = 100;
  gecos = [];
  home = [];
  shell = [];
  permissions = perms;
}

abbrev pub wheel : GroupEntry
wheel = record {
  name = codes "wheel";
  gid = 10;
  members = codes "alice" ∷ [];
  permissions = 9 ∷ [];
}

abbrev pub people : UserStore
people = record {
  users = person (codes "root") 0 [] ∷ person (codes "alice") 1000 (7 ∷ 300 ∷ []) ∷ [];
  shadows = [];
  groups = wheel ∷ [];
  name_index = (codes "root", 0) ∷ (codes "alice", 1) ∷ [];
  uid_index = (0, 0) ∷ (1000, 1) ∷ [];
}

abbrev changes : Overlay
changes = record {
  uid_grants = (1000, 8 ∷ []) ∷ [];
  uid_revokes = (1000, 7 ∷ []) ∷ [];
  gid_grants = [];
  gid_revokes = (10, 9 ∷ []) ∷ [];
}

written : (bytes : List ℕ) × (write_perms_with_overlay people changes ≡ ok bytes)
unfolding write_perms_with_overlay write_users write_record write_groups user_effective
    group_effective Map.get Set.remove
written = (_, refl)

alice_ids : user_effective changes (person (codes "alice") 1000 (7 ∷ 300 ∷ [])) ≡ 8 ∷ 300 ∷ []
unfolding user_effective Map.get Set.remove
alice_ids = refl

root_ids : user_effective changes (person (codes "root") 0 []) ≡ []
unfolding user_effective Map.get Set.remove
root_ids = refl

wheel_ids : group_effective changes wheel ≡ []
unfolding group_effective Map.get Set.remove
wheel_ids = refl

people-InRange : InRange changes people
people-InRange = record {
  uids = (
    (omega arith, rw root_ids tt),
    ((omega arith, rw alice_ids (omega arith, (omega arith, tt))), tt),
  );
  gids = ((omega arith, rw wheel_ids tt), tt);
}

people-DistinctIds : DistinctIds people
people-DistinctIds = record { uids = (((λ e. omega (arith, e)), tt), (tt, tt)); gids = (tt, tt) }

parse_perms-written_example :
    (m : PermMaps) × (parse_perms written.0 ≡ ok m)
    × All
        (λ (u : UserRecord).
          (q : ℕ)
          → Set.contains q (Map.get_or u.uid [] m.user_perms) ≡ (
              if contains_opt q (Map.get u.uid changes.uid_grants)
              then true
              else (if contains_opt q (Map.get u.uid changes.uid_revokes)
                  then false
                  else Set.contains q u.permissions)))
        people.users
    × All
        (λ (g : GroupEntry).
          (q : ℕ)
          → Set.contains q (Map.get_or g.gid [] m.group_perms) ≡ (
              if contains_opt q (Map.get g.gid changes.gid_grants)
              then true
              else (if contains_opt q (Map.get g.gid changes.gid_revokes)
                  then false
                  else Set.contains q g.permissions)))
        people.groups
parse_perms-written_example =
    parse_perms-written people changes people-InRange people-DistinctIds written.1
