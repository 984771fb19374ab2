-- ===== src/Examples/Rights.antt =====
-- The theorems about crates/core/src/permissions.rs at a store of two users.
use rind.Prelude.{
  ℕ, List, inl, inr, ◌≡◌, ◌↔◌, refl, Bool, true, false, none, some, [], ◌∷◌, if◌then◌else◌, ◌==◌,
  nat_eq, arith,
}
use mathlib.Core.Option
use rind.Map
use rind.Map.{Map}
use rind.Set
use rind.Text.{codes, text_eq}
use rind.Users.{UserRecord, lookup_by_uid, groups_for, add_memberships, group}
use rind.Permissions.{PermissionStore, no_overlay, listed, link, grant_user}
use rind.Permissions.Check.{parents, user_has}
use rind.Permissions.UserSemantics.{UserHas, own_grant}
use rind.Permissions.Termination.{Falls, user_has_decides, link_self_diverges}
use rind.Permissions.Handlers.{
  Request, grant, revoke, AllDisjoint, handle_all, handle_all-AllDisjoint,
}
use rind.Permissions.Listing.{unknown, all, all_of_user, list_rows}
use rind.Permissions.Listing.Shown.{row_name}
use rind.Error.{ok}
use rind.Permissions.Ipc.{
  PermissionPayload, IsDisjoint, grant_ungrant_ipc, grant_ungrant_ipc-IsDisjoint,
}
use rind.Examples.Accounts.{person, people}

abbrev pub rights : PermissionStore
rights = record {
  overlay = no_overlay;
  links = (3, 4 ∷ []) ∷ [];
  groups = [];
  by_id = [];
  by_name = [];
  users = people;
}

abbrev alice : UserRecord
alice = person (codes "alice") 1000 (7 ∷ 300 ∷ [])

alice_found : lookup_by_uid people 1000 ≡ some alice
unfolding lookup_by_uid Map.get Option.bind
alice_found = refl

-- 3 is linked to 4
abbrev depth : ℕ → ℕ
depth p = if p == 3 then 1 else 0

rights-Falls : Falls rights depth
unfolding parents Map.get_or Map.get Set.contains
rights-Falls p q h = ground arith

user_has_decides_example :
    (b : Bool) × (user_has 2 rights 1000 3 ≡ some b) × ((b ≡ true) ↔ UserHas rights 1000 3)
user_has_decides_example = user_has_decides rights depth rights-Falls 2 1000 3 (omega arith)

abbrev bob : UserRecord
bob = person (codes "bob") 1001 []

abbrev alone : PermissionStore
alone = record rights {
  links = [];
  users = record {
    users = bob ∷ [];
    shadows = [];
    groups = [];
    name_index = (codes "bob", 0) ∷ [];
    uid_index = (1001, 0) ∷ [];
  };
}

bob_found : lookup_by_uid alone.users 1001 ≡ some bob
unfolding lookup_by_uid Map.get Option.bind
bob_found = refl

bob_groups : groups_for alone.users bob ≡ []
unfolding groups_for group add_memberships
bob_groups = refl

bob_unrevoked : listed 1001 5 alone.uid_revokes ≡ false
unfolding listed Map.get
bob_unrevoked = refl

bob_ungranted : own_grant alone 1001 5 bob ≡ false
unfolding listed Map.get Set.contains
bob_ungranted = refl

no_group : Map.get 5 alone.groups ≡ none
unfolding Map.get
no_group = refl

no_link : Map.get 5 alone.links ≡ none
unfolding Map.get
no_link = refl

link_self_diverges_example : user_has 100 (link 5 5 alone) 1001 5 ≡ none
link_self_diverges_example =
    link_self_diverges alone 1001 5 bob refl bob_found bob_groups no_group bob_unrevoked
      bob_ungranted no_link 100

no_grants-IsDisjoint : IsDisjoint rights
unfolding listed Map.get
no_grants-IsDisjoint = record {
  users_apart = λ uid p h. absurd (ground arith);
  groups_apart = λ gid p h. absurd (ground arith);
}

abbrev request : PermissionPayload
request = record { subject = codes "alice"; permission = codes "7"; group = false }

grant_ungrant_ipc-IsDisjoint_example : IsDisjoint (grant_ungrant_ipc request rights false).1
grant_ungrant_ipc-IsDisjoint_example =
    grant_ungrant_ipc-IsDisjoint request rights false no_grants-IsDisjoint

shared : listed 1000 7 (grant_user 1000 7 rights).uid_grants ≡ true
unfolding listed grant_user Map.get Set.contains Map.insert Set.insert Map.get_or
shared = refl

unrevoked : listed 1000 7 (grant_user 1000 7 rights).uid_revokes ≡ false
unfolding listed grant_user Map.get Set.contains Map.insert Set.remove Map.get_or
unrevoked = refl

alices_own : Set.contains 7 alice.permissions ≡ true
unfolding Set.contains
alices_own = refl

alice_still : lookup_by_uid (grant_user 1000 7 rights).users 1000 ≡ some alice
unfolding grant_user lookup_by_uid Map.get Option.bind
alice_still = refl

alices_rows : all (some 1000) false rights ≡ ok ((7, unknown, none) ∷ (300, unknown, none) ∷ [])
unfolding all all_of_user list_rows lookup_by_uid Map.get Option.bind Map.get_or Map.insert
    Map.remove
alices_rows = refl

seven_listed : row_name 7 ((7, unknown, none) ∷ (300, unknown, none) ∷ []) ≡ some unknown
unfolding row_name
seven_listed = refl

abbrev requests : List Request
requests = grant (inr request) ∷ revoke (inl (codes "no payload")) ∷ revoke (inr request) ∷ []

handle_all-AllDisjoint_example : AllDisjoint (handle_all requests (some rights))
handle_all-AllDisjoint_example = handle_all-AllDisjoint requests (some rights) no_grants-IsDisjoint
