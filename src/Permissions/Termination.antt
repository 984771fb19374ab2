-- ===== src/Permissions/Termination.antt =====
-- The recursion of `user_has` and `group_has` of crates/core/src/permissions.rs along the links: it
-- ends where the links have no cycle, and `link` lets a permission be linked to itself.
use rind.Prelude.{
  ℕ, zero, suc, ◌<◌, ◌≡◌, ◌↔◌, refl, Bool, true, false, Option, none, some, List, [], ◌∷◌, ◌||◌, Eq,
  ==_refl, nat_eq, Bool-cases, Option-cases, inl, inr, arith,
}
use rind.Map
use rind.Map.{Map}
use rind.Set
use rind.Text.{Text, text_eq}
use rind.Users.{UserRecord, lookup_by_uid, group, group_by_name, groups_for}
use rind.Permissions.{PermissionStore, listed, list_in, link}
use rind.Permissions.Check.{or_else, any_of, parents, group_has, group_grants, by_group, user_has}
use rind.Permissions.UserSemantics.{UserHas, is_everybodys, own_grant, user_has_iff}

abbrev Returns : Option Bool → Type 0
Returns r = (b : Bool) × (r ≡ some b)

or_else-Returns : (x y : Option Bool) → Returns x → Returns y → Returns (or_else x y)
or_else-Returns x y (true, e) h = rw e (true, refl)
or_else-Returns x y (false, e) h = rw e h

any_of-Returns :
    {A : Type 0} ⦃e : Eq A⦄ (f : A → Option Bool) (xs : List A)
    → ((x : A) → Set.contains x xs ≡ true → Returns (f x))
    → Returns (any_of f xs)
any_of-Returns f [] h = (false, refl)
any_of-Returns f (x ∷ xs) h =
    or_else-Returns (f x) (any_of f xs) (h x (Set.contains-cons_self x xs))
      (any_of-Returns f xs (λ y m. h y (Set.contains-cons y x xs m)))

-- A number falls along each link, so that the links have no cycle.
abbrev pub Falls : PermissionStore → (ℕ → ℕ) → Type 0
Falls s rank = (p q : ℕ) → Set.contains q (parents s p) ≡ true → rank q < rank p

module _ (s : PermissionStore) (rank : ℕ → ℕ) (falls : Falls s rank) where
  group_has-Returns : (fuel gid p : ℕ) → rank p < fuel → Returns (group_has fuel s gid p)
  unfolding group_has
  group_has-Returns zero gid p h = elim h [ ]
  group_has-Returns (suc fuel) gid p h =
      let rest : Returns (any_of (λ q. group_has fuel s gid q) (parents s p)) =
        any_of-Returns _ (parents s p)
          (λ q m. group_has-Returns fuel gid q (omega (arith, falls p q m))) in
      elim (Option-cases (group s.users gid)) [
        | inl missing ↦ rw (missing, group_has) (false, refl)
        | inr (g, found) ↦ elim (Bool-cases (listed gid p s.gid_revokes)) [
          | inl revoked ↦ rw (found, revoked, group_has) (false, refl)
          | inr kept ↦
              rw (found, kept, group_has)
                (or_else-Returns (some (Set.contains p g.permissions || listed gid p s.gid_grants))
                  _ (_, refl) rest)
        ]
      ]

  group_grants-Returns :
      (fuel p : ℕ) (name : Text) → rank p < fuel → Returns (group_grants fuel s p name)
  unfolding group_grants
  group_grants-Returns fuel p name h = elim (Option-cases (group_by_name s.users name)) [
    | inl missing ↦ rw (missing, group_grants) (false, refl)
    | inr (g, found) ↦ rw (found, group_grants) (group_has-Returns fuel g.gid p h)
  ]

  known :
      (fuel uid p : ℕ)
      → rank p < suc fuel
      → (u : UserRecord) → lookup_by_uid s.users uid ≡ some u
      → is_everybodys uid p ≡ false
      → Returns (any_of (λ q. user_has fuel s uid q) (parents s p))
      → Returns (user_has (suc fuel) s uid p)
  unfolding user_has
  known fuel uid p h u found other rest = elim (Bool-cases (by_group s p (groups_for s.users u))) [
    | inl member ↦ rw (other, found, member, user_has) (true, refl)
    | inr outside ↦ elim (Bool-cases (listed uid p s.uid_revokes)) [
      | inl revoked ↦ rw (other, found, outside, revoked, user_has) (false, refl)
      | inr kept ↦
          rw (other, found, outside, kept, user_has)
            (or_else-Returns _ _
              (or_else-Returns (some (own_grant s uid p u)) _ (_, refl)
                (any_of-Returns _ (groups_for s.users u)
                  (λ name m. group_grants-Returns (suc fuel) p name h)))
              rest)
    ]
  ]

  user_has-Returns : (fuel uid p : ℕ) → rank p < fuel → Returns (user_has fuel s uid p)
  unfolding user_has
  user_has-Returns zero uid p h = elim h [ ]
  user_has-Returns (suc fuel) uid p h =
      let rest : Returns (any_of (λ q. user_has fuel s uid q) (parents s p)) =
        any_of-Returns _ (parents s p)
          (λ q m. user_has-Returns fuel uid q (omega (arith, falls p q m))) in
      elim (Bool-cases (is_everybodys uid p)) [
        | inl all ↦ rw (all, user_has) (true, refl)
        | inr other ↦ elim (Option-cases (lookup_by_uid s.users uid)) [
          | inl missing ↦ rw (other, missing, user_has) (false, refl)
          | inr (u, found) ↦ known fuel uid p h u found other rest
        ]
      ]

  -- Where a rank falls along every link, user_has returns with fuel above the rank of the
  -- permission, and its answer is yes exactly when the permission is derivable for the user.
  pub user_has_decides :
      (fuel uid p : ℕ)
      → rank p < fuel
      → (b : Bool) × (user_has fuel s uid p ≡ some b) × ((b ≡ true) ↔ UserHas s uid p)
  user_has_decides fuel uid p h =
      let (b, e) = user_has-Returns fuel uid p h in (b, e, user_has_iff fuel s uid p b e)

listed-none : (p q : ℕ) (m : Map ℕ (List ℕ)) → Map.get p m ≡ none → listed p q m ≡ false
unfolding listed
listed-none p q m h = rw (h, listed)

list_in-none :
    (p q : ℕ) (m : Map ℕ (List ℕ)) → Map.get p m ≡ none → list_in p q m ≡ Map.insert p (q ∷ []) m
unfolding list_in Map.get_or Set.insert Set.contains
list_in-none p q m h = rw (h, list_in, Map.get_or)

link_self :
    (s : PermissionStore) (p : ℕ)
    → Map.get p s.links ≡ none
    → link p p s ≡ record s { links = Map.insert p (p ∷ []) s.links }
unfolding link
link_self s p none_yet =
    rw (listed-none p p s.links none_yet, list_in-none p p s.links none_yet, link)

parents_self :
    (s : PermissionStore) (p : ℕ)
    → parents (record s { links = Map.insert p (p ∷ []) s.links }) p ≡ p ∷ []
unfolding parents
parents_self s p =
    Map.get-get_or p [] (Map.insert p (p ∷ []) s.links) (p ∷ [])
      (rw (Map.get-insert p p (p ∷ []) s.links, ==_refl p))

module _ (s : PermissionStore) (uid p : ℕ) (u : UserRecord) (other : is_everybodys uid p ≡ false)
    (found : lookup_by_uid s.users uid ≡ some u) (alone : groups_for s.users u ≡ [])
    (plain : Map.get p s.groups ≡ none) (kept : listed uid p s.uid_revokes ≡ false)
    (none_own : own_grant s uid p u ≡ false) where
  looped_diverges :
      (fuel : ℕ) → user_has fuel (record s { links = Map.insert p (p ∷ []) s.links }) uid p ≡ none
  unfolding user_has by_group
  looped_diverges zero = refl
  looped_diverges (suc fuel) = ground (arith, parents_self s p, looped_diverges fuel)

  -- After link of an unlinked permission to itself, user_has returns with no fuel for a known user
  -- other than root who is in no group and has neither grant nor revocation of the permission, if
  -- no group stands for it.
  pub link_self_diverges :
      Map.get p s.links ≡ none → (fuel : ℕ) → user_has fuel (link p p s) uid p ≡ none
  link_self_diverges none_yet fuel = rw (link_self s p none_yet) (looped_diverges fuel)
