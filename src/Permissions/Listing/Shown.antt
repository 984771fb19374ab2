-- ===== src/Permissions/Listing/Shown.antt =====
-- What the listing of crates/core/src/permissions.rs tells of a user's permissions.
use rind.Prelude.{
  ℕ, suc, ◌≡◌, refl, ◌∙◌, inl, inr, Bool, true, false, not, Option, none, some, List, [], ◌∷◌, ◌++◌,
  filter, if◌then◌else◌, ◌==◌, ==_iff, ==_refl, nat_eq, Bool-cases, arith,
}
use rind.Map
use rind.Map.{Map}
use rind.Set
use rind.Text.{Text, text_eq}
use rind.Error.{ok}
use rind.Users.{UserRecord, lookup_by_uid}
use rind.Permissions.{PermissionStore, listed}
use rind.Permissions.Check.{user_has}
use rind.Permissions.Listing.{unknown, collect, Row, rows, kept, all_of_user, list_rows, all}

-- the name in the row of a permission
unfoldable pub row_name : ℕ → List Row → Option Text
row_name p [] = none
row_name p ((id, name, g) ∷ rest) =
    let found = row_name p rest in if id == p then some name else found

row_name-rows : (p : ℕ) (m groups : Map ℕ Text) → row_name p (rows m groups) ≡ Map.get p m
unfolding row_name rows Map.get
row_name-rows p [] groups = refl
row_name-rows p ((id, name) ∷ m) groups = ground (arith, row_name-rows p m (Map.remove id groups))

contains-append :
    (p : ℕ) (xs ys : List ℕ)
    → Set.contains p (xs ++ ys) ≡ (if Set.contains p xs then true else Set.contains p ys)
unfolding Set.contains
contains-append p [] ys = refl
contains-append p (x ∷ xs) ys = ground (arith, contains-append p xs ys)

-- what a chain without the name of `p` makes of `p`
get-collect_unnamed :
    (p : ℕ) (xs : List ℕ) (names acc : Map ℕ Text)
    → Map.get p names ≡ none
    → Map.get p (collect xs names acc) ≡ (if Set.contains p xs then some unknown else Map.get p acc)
unfolding collect Set.contains Map.get_or
get-collect_unnamed p [] names acc h = refl
get-collect_unnamed p (x ∷ xs) names acc h = ground (
  arith,
  Map.get-remove x p names,
  Map.get-insert x p (Map.get_or x unknown names) acc,
  get-collect_unnamed p xs (Map.remove x names) (Map.insert x (Map.get_or x unknown names) acc),
)

-- a permission that stands in the chain twice
get-collect_twice :
    (p : ℕ) (xs ys : List ℕ) (names acc : Map ℕ Text)
    → Set.contains p xs ≡ true
    → Set.contains p ys ≡ true
    → Map.get p (collect (xs ++ ys) names acc) ≡ some unknown
unfolding collect Set.contains
get-collect_twice p [] ys names acc h k = absurd (ground arith)
get-collect_twice p (x ∷ xs) ys names acc h k =
    let names' = Map.remove x names in
    let acc' = Map.insert x (Map.get_or x unknown names) acc in
    elim (Bool-cases (x == p)) [
      | inl same ↦
          let gone : Map.get p names' ≡ none = ground (arith, Map.get-remove x p names) in
          ground (arith, get-collect_unnamed p (xs ++ ys) names' acc' gone, contains-append p xs ys)
      | inr other ↦ get-collect_twice p xs ys names' acc' (ground arith) k
    ]

-- whatever stands in the result came from the chain
get-collect_member :
    (p : ℕ) (xs : List ℕ) (names acc : Map ℕ Text)
    → Set.contains p xs ≡ false
    → Map.get p (collect xs names acc) ≡ Map.get p acc
unfolding collect Set.contains
get-collect_member p [] names acc h = refl
get-collect_member p (x ∷ xs) names acc h = ground (
  arith,
  Map.get-insert x p (Map.get_or x unknown names) acc,
  get-collect_member p xs (Map.remove x names) (Map.insert x (Map.get_or x unknown names) acc),
)

module _ (test : ℕ → Bool) where
  contains-filter :
      (p : ℕ) (xs : List ℕ)
      → Set.contains p (filter test xs) ≡ (if test p then Set.contains p xs else false)
  unfolding Set.contains
  contains-filter p [] = ground arith
  contains-filter p (x ∷ xs) = elim (Bool-cases (x == p)) [
    | inl same ↦
        let equal : x ≡ p = (==_iff x p).0 same in
        rw equal (ground (arith, contains-filter p xs, ==_refl p))
    | inr other ↦ ground (arith, contains-filter p xs)
  ]

  filter-append : (xs ys : List ℕ) → filter test (xs ++ ys) ≡ filter test xs ++ filter test ys
  filter-append [] ys = refl
  filter-append (x ∷ xs) ys = ground (arith, filter-append xs ys)

contains-get_or :
    (id p : ℕ) (m : Map ℕ (List ℕ)) → Set.contains p (Map.get_or id [] m) ≡ listed id p m
unfolding listed Map.get_or
contains-get_or id p m = ground (arith, Set.contains-nil p)

contains-kept :
    (own : List ℕ) (id p : ℕ) (grants revokes : Map ℕ (List ℕ))
    → Set.contains p (kept own id grants revokes) ≡ (
        if listed id p revokes
        then false
        else (if Set.contains p own then true else listed id p grants))
unfolding kept
contains-kept own id p grants revokes = ground (
  arith,
  contains-filter (λ x. not (listed id x revokes)) p (own ++ Map.get_or id [] grants),
  contains-append p own (Map.get_or id [] grants),
  contains-get_or id p grants,
)

module _ (s : PermissionStore) (uid : ℕ) (u : UserRecord)
    (found : lookup_by_uid s.users uid ≡ some u) where
  abbrev users_rows : List Row
  users_rows =
      rows (collect (kept u.permissions uid s.uid_grants s.uid_revokes) s.by_id []) s.groups

  all_value : all (some uid) false s ≡ ok users_rows
  unfolding all all_of_user list_rows
  all_value = rw (found, all_of_user) refl

  listed_kept :
      (p : ℕ) (name : Text)
      → row_name p users_rows ≡ some name
      → Set.contains p (kept u.permissions uid s.uid_grants s.uid_revokes) ≡ true
  unfolding Map.get
  listed_kept p name h = ground (
    arith,
    row_name-rows p (collect (kept u.permissions uid s.uid_grants s.uid_revokes) s.by_id [])
        s.groups,
    get-collect_member p (kept u.permissions uid s.uid_grants s.uid_revokes) s.by_id [],
  )

  -- Every permission in the listing for a known user is one that user_has grants to the user.
  pub all-user_has :
      (list : List Row) (p : ℕ) (name : Text) (fuel : ℕ)
      → all (some uid) false s ≡ ok list
      → row_name p list ≡ some name
      → user_has (suc fuel) s uid p ≡ some true
  unfolding user_has
  all-user_has list p name fuel listing h =
      let same : users_rows ≡ list = ground (arith, all_value) in
      ground (
        arith,
        listed_kept p name (rw same h),
        contains-kept u.permissions uid p s.uid_grants s.uid_revokes,
      )

  -- A permission that is both in a known user's entry and granted to the user, and not revoked, is
  -- listed under the name "unknown", whatever name it is registered with.
  pub all-unknown :
      (p : ℕ)
      → Set.contains p u.permissions ≡ true
      → listed uid p s.uid_grants ≡ true
      → listed uid p s.uid_revokes ≡ false
      → (list : List Row) × (all (some uid) false s ≡ ok list) × (row_name p list ≡ some unknown)
  unfolding kept
  all-unknown p own granted unrevoked =
      let test : ℕ → Bool = λ x. not (listed uid x s.uid_revokes) in
      let grants = Map.get_or uid [] s.uid_grants in
      let mine : Set.contains p (filter test u.permissions) ≡ true =
        ground (arith, contains-filter test p u.permissions) in
      let theirs : Set.contains p (filter test grants) ≡ true =
        ground (arith, contains-filter test p grants, contains-get_or uid p s.uid_grants) in
      (
        users_rows,
        all_value,
        row_name-rows p (collect (filter test (u.permissions ++ grants)) s.by_id []) s.groups
            ∙ rw (filter-append test u.permissions grants) (
                get-collect_twice p (filter test u.permissions) (filter test grants) s.by_id [] mine
                  theirs),
      )
