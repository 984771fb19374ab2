-- ===== src/Users/Reload.antt =====
-- The permissions that `load` of crates/core/src/user.rs takes from a written permission file.
use rind.Prelude.{
  ℕ, ◌≡◌, ◌≢◌, refl, Bool, true, false, some, List, [], ◌∷◌, map, if◌then◌else◌, nat_beq, ◌==◌,
  nat_eq, get_elem?, zero, suc, All, Distinct, arith,
}
use rind.Map
use rind.Map.{Map}
use rind.Set
use rind.Error.{ok}
use rind.Users.{UserRecord, GroupEntry, UserStore}
use rind.Users.Load.{PermMaps, no_perms, add_record, parse_perms}
use rind.Users.Perms.{Overlay, user_effective, group_effective, write_perms_with_overlay}
use rind.Users.Codec.{
  Item, user_item, group_item, add_items, reload, InRange, parse_perms-write_perms,
}
use rind.Users.Effective.{contains_opt, contains-effective}

get_or-insert :
    (k j : ℕ) (v : List ℕ) (m : Map ℕ (List ℕ))
    → Map.get_or j [] (Map.insert k v m) ≡ (if k == j then v else Map.get_or j [] m)
unfolding Map.get_or
get_or-insert k j v m = ground (arith, Map.get-insert k j v m)

abbrev the_empty : Map ℕ (List ℕ)
the_empty = []

get_or-nil : (k : ℕ) → Map.get_or k [] (the_empty) ≡ []
unfolding Map.get_or Map.get
get_or-nil k = refl

abbrev perms_of : Bool → PermMaps → Map ℕ (List ℕ)
perms_of true m = m.user_perms
perms_of false m = m.group_perms

abbrev Others : ℕ → List Item → Type 0
Others k is = All (λ (i : Item). i.0 ≢ k) is

module _ (kind : ℕ) where
  perms_of-add_record :
      (k : ℕ) (i : ℕ) (ps : List ℕ) (m : PermMaps)
      → Map.get_or k [] (perms_of (nat_beq kind 0) (add_record (nat_beq kind 0) i ps m))
        ≡ (if i == k then ps else Map.get_or k [] (perms_of (nat_beq kind 0) m))
  unfolding add_record
  perms_of-add_record k i ps m =
      ground (arith, get_or-insert i k ps m.user_perms, get_or-insert i k ps m.group_perms)

  add_items-Others :
      (k : ℕ) (is : List Item) (m : PermMaps)
      → Others k is
      → Map.get_or k [] (perms_of (nat_beq kind 0) (add_items kind is m))
        ≡ Map.get_or k [] (perms_of (nat_beq kind 0) m)
  unfolding add_items
  add_items-Others k [] m h = refl
  add_items-Others k ((i, []) ∷ is) m h = add_items-Others k is m h.1
  add_items-Others k ((i, p ∷ ps) ∷ is) m h = ground (
    arith,
    add_items-Others k is (add_record (nat_beq kind 0) i (p ∷ ps) m) h.1,
    perms_of-add_record k i (p ∷ ps) m,
    h.0,
  )

  All-get_elem? :
      (P : Item → Type 0) (is : List Item) (j : ℕ) (x : Item)
      → All P is
      → get_elem? is j ≡ some x
      → P x
  All-get_elem? P [] j x h e = ground arith
  All-get_elem? P (i ∷ is) zero x h e = let same : x ≡ i = ground arith in rw same h.0
  All-get_elem? P (i ∷ is) (suc j) x h e = All-get_elem? P is j x h.1 e

  -- With distinct numbers each item is found as it was written.
  add_items-get :
      (is : List Item) (j : ℕ) (x : Item) (m : PermMaps)
      → Distinct (λ (i : Item). i.0) is
      → get_elem? is j ≡ some x
      → Map.get_or x.0 [] (perms_of (nat_beq kind 0) m) ≡ []
      → Map.get_or x.0 [] (perms_of (nat_beq kind 0) (add_items kind is m)) ≡ x.1
  unfolding add_items
  add_items-get [] j x m d e h = ground arith
  add_items-get ((i, []) ∷ is) zero x m d e h = ground (arith, add_items-Others i is m d.0)
  add_items-get ((i, []) ∷ is) (suc j) x m d e h = add_items-get is j x m d.1 e h
  add_items-get ((i, p ∷ ps) ∷ is) zero x m d e h = ground (
    arith,
    add_items-Others i is (add_record (nat_beq kind 0) i (p ∷ ps) m) d.0,
    perms_of-add_record i i (p ∷ ps) m,
  )
  add_items-get ((i, p ∷ ps) ∷ is) (suc j) x m d e h =
      let apart : x.0 ≢ i = All-get_elem? (λ (y : Item). y.0 ≢ i) is j x d.0 e in
      add_items-get is j x (add_record (nat_beq kind 0) i (p ∷ ps) m) d.1 e
        (ground (arith, perms_of-add_record x.0 i (p ∷ ps) m))

-- the numbers of the users and those of the groups are distinct
pub record DistinctIds (s : UserStore) : Type 0 where
  pub uids : Distinct (λ (u : UserRecord). u.uid) s.users
  pub gids : Distinct (λ (g : GroupEntry). g.gid) s.groups

module _ {A : Type 0} (item : A → Item) where
  get_elem?-map :
      (xs : List A) (j : ℕ) (x : A)
      → get_elem? xs j ≡ some x
      → get_elem? (map item xs) j ≡ some (item x)
  get_elem?-map [] j x e = ground arith
  get_elem?-map (y ∷ xs) zero x e = ground arith
  get_elem?-map (y ∷ xs) (suc j) x e = get_elem?-map xs j x e

  Others-map : (k : ℕ) (xs : List A) → All (λ x. (item x).0 ≢ k) xs → Others k (map item xs)
  Others-map k [] h = tt
  Others-map k (x ∷ xs) h = (h.0, Others-map k xs h.1)

  Distinct-map :
      (xs : List A) → Distinct (λ x. (item x).0) xs → Distinct (λ (i : Item). i.0) (map item xs)
  Distinct-map [] d = tt
  Distinct-map (x ∷ xs) d = (Others-map (item x).0 xs d.0, Distinct-map xs d.1)

user_perms-groups :
    (is : List Item) (m : PermMaps)
    → ((add_items 1 is m).user_perms ≡ m.user_perms)
      × ((add_items 0 is m).group_perms ≡ m.group_perms)
unfolding add_items add_record
user_perms-groups [] m = (refl, refl)
user_perms-groups ((i, []) ∷ is) m = user_perms-groups is m
user_perms-groups ((i, p ∷ ps) ∷ is) m = ((user_perms-groups is _).0, (user_perms-groups is _).1)

-- `load` finds, for each user and each group, the set that the writer computed for it.
reload_lem :
    (s : UserStore) (o : Overlay)
    → DistinctIds s
    → ((j : ℕ) (u : UserRecord)
        → get_elem? s.users j ≡ some u
        → Map.get_or u.uid [] (reload o s).user_perms ≡ user_effective o u)
      × ((j : ℕ) (g : GroupEntry)
          → get_elem? s.groups j ≡ some g
          → Map.get_or g.gid [] (reload o s).group_perms ≡ group_effective o g)
unfolding reload
reload_lem s o d =
    let us = map (user_item o) s.users in
    let gs = map (group_item o) s.groups in
    let m = add_items 0 us no_perms in
    (
      λ j u e. rw ((user_perms-groups gs m).0) (
          add_items-get 0 us j (user_item o u) no_perms (Distinct-map (user_item o) s.users d.uids)
            (get_elem?-map (user_item o) s.users j u e) (get_or-nil u.uid)),
      λ j g e.
          add_items-get 1 gs j (group_item o g) m (Distinct-map (group_item o) s.groups d.gids)
            (get_elem?-map (group_item o) s.groups j g e)
            (rw ((user_perms-groups us no_perms).1) (get_or-nil g.gid)),
    )

All-of_elements :
    {A : Type 0} (P : A → Type 0) (xs : List A)
    → ((j : ℕ) (x : A) → get_elem? xs j ≡ some x → P x)
    → All P xs
All-of_elements P [] h = tt
All-of_elements P (x ∷ xs) h = (h 0 x refl, All-of_elements P xs (λ j y e. h (suc j) y e))

-- With every number in range and no number of a user or of a group repeated, a written permission
-- file parses without error, and each user and each group gets back exactly what is granted to it
-- and, of its own permissions, what is not revoked.
pub parse_perms-written :
    (s : UserStore) (o : Overlay) {bytes : List ℕ}
    → InRange o s
    → DistinctIds s
    → write_perms_with_overlay s o ≡ ok bytes
    → (m : PermMaps) × (parse_perms bytes ≡ ok m)
      × All
          (λ (u : UserRecord).
            (q : ℕ)
            → Set.contains q (Map.get_or u.uid [] m.user_perms) ≡ (
                if contains_opt q (Map.get u.uid o.uid_grants)
                then true
                else (if contains_opt q (Map.get u.uid o.uid_revokes)
                    then false
                    else Set.contains q u.permissions)))
          s.users
      × All
          (λ (g : GroupEntry).
            (q : ℕ)
            → Set.contains q (Map.get_or g.gid [] m.group_perms) ≡ (
                if contains_opt q (Map.get g.gid o.gid_grants)
                then true
                else (if contains_opt q (Map.get g.gid o.gid_revokes)
                    then false
                    else Set.contains q g.permissions)))
          s.groups
unfolding user_effective group_effective
parse_perms-written s o r d e =
    let (users, groups) = reload_lem s o d in
    (
      reload o s,
      parse_perms-write_perms s o r e,
      All-of_elements _ s.users (λ j u h q. rw (users j u h) (
          contains-effective q u.permissions (Map.get u.uid o.uid_revokes)
            (Map.get u.uid o.uid_grants))),
      All-of_elements _ s.groups (λ j g h q. rw (groups j g h) (
          contains-effective q g.permissions (Map.get g.gid o.gid_revokes)
            (Map.get g.gid o.gid_grants))),
    )
