-- ===== src/Permissions/Semantics.antt =====
-- Which permissions a group has, as derivations, and `group_has` of
-- crates/core/src/permissions.rs as what decides them.
use rind.Prelude.{
  ℕ, zero, suc, ◌≡◌, ◌⊎◌, inl, inr, refl, Bool, true, false, Option, none, some, List, [], ◌∷◌,
  ◌||◌, Eq, nat_eq, Bool-cases, Option-cases, arith,
}
use rind.Set
use rind.Text.{text_eq}
use rind.Users.{GroupEntry, group}
use rind.Permissions.{PermissionStore, listed}
use rind.Permissions.Check.{or_else, any_of, parents, group_has}

-- A group has a permission if its own entry or the overlay grants it, or one that it is linked to
-- is had, and the overlay does not revoke it.
pub data GroupHas (s : PermissionStore) (gid : ℕ) : ℕ → Type 0 where
  own :
      {p : ℕ} (g : GroupEntry)
      → group s.users gid ≡ some g
      → listed gid p s.gid_revokes ≡ false
      → (Set.contains p g.permissions || listed gid p s.gid_grants) ≡ true
      → GroupHas s gid p
  linked :
      {p : ℕ} (g : GroupEntry) (q : ℕ)
      → group s.users gid ≡ some g
      → listed gid p s.gid_revokes ≡ false
      → Set.contains q (parents s p) ≡ true
      → GroupHas s gid q
      → GroupHas s gid p

pub or_else-true : (a b : Option Bool) → or_else a b ≡ some true → (a ≡ some true) ⊎ (b ≡ some true)
or_else-true none b h = cc
or_else-true (some true) b h = inl refl
or_else-true (some false) b h = inr h

-- a test that succeeds somewhere in a list succeeds at a member
pub any_of-true :
    {A : Type 0} ⦃e : Eq A⦄ (f : A → Option Bool) (xs : List A)
    → any_of f xs ≡ some true
    → (x : A) × (Set.contains x xs ≡ true) × (f x ≡ some true)
any_of-true f [] h = cc
any_of-true f (x ∷ xs) h = elim (or_else-true (f x) (any_of f xs) h) [
  | inl head ↦ (x, Set.contains-cons_self x xs, head)
  | inr tail ↦
      let (y, member, found) = any_of-true f xs tail in (y, Set.contains-cons y x xs member, found)
]

abbrev own_grant : PermissionStore → ℕ → ℕ → GroupEntry → Bool
own_grant s gid p g = Set.contains p g.permissions || listed gid p s.gid_grants

group_has_zero :
    (s : PermissionStore) (gid p : ℕ) → group_has 0 s gid p ≡ some true → GroupHas s gid p
unfolding group_has
group_has_zero s gid p h = cc

-- the ways in which `group_has` comes to say yes
group_has_cases :
    (fuel : ℕ) (s : PermissionStore) (gid p : ℕ)
    → group_has (suc fuel) s gid p ≡ some true
    → (g : GroupEntry) × (group s.users gid ≡ some g)
      × (listed gid p s.gid_revokes ≡ false)
      × ((own_grant s gid p g ≡ true)
          ⊎ (any_of (λ q. group_has fuel s gid q) (parents s p) ≡ some true))
unfolding group_has
group_has_cases fuel s gid p h = elim (Option-cases (group s.users gid)) [
  | inl missing ↦ ground arith
  | inr (g, found) ↦ elim (Bool-cases (listed gid p s.gid_revokes)) [
    | inl revoked ↦ ground arith
    | inr kept ↦ (g, found, kept, ground arith)
  ]
]

pub group_has-GroupHas :
    (fuel : ℕ) (s : PermissionStore) (gid p : ℕ)
    → group_has fuel s gid p ≡ some true
    → GroupHas s gid p
group_has-GroupHas zero s gid p h = group_has_zero s gid p h
group_has-GroupHas (suc fuel) s gid p h =
    let (g, found, kept, why) = group_has_cases fuel s gid p h in
    elim why [
      | inl mine ↦ own g found kept mine
      | inr linked_to ↦
          let (q, member, has) =
            any_of-true (λ q. group_has fuel s gid q) (parents s p) linked_to in
          linked g q found kept member (group_has-GroupHas fuel s gid q has)
    ]

group_has_none :
    (s : PermissionStore) (gid p : ℕ) (b : Bool) → group_has 0 s gid p ≡ some b → b ≡ true
unfolding group_has
group_has_none s gid p b h = cc

-- A test of a list that says no has been answered no by every member.
pub any_of-false :
    {A : Type 0} ⦃e : Eq A⦄ (f : A → Option Bool) (xs : List A) (b : Bool) (x : A)
    → any_of f xs ≡ some b
    → Set.contains x xs ≡ true
    → (b ≡ true) ⊎ (f x ≡ some false)
unfolding Set.contains
any_of-false f [] b x h m = cc
any_of-false ⦃e⦄ f (y ∷ xs) b x h m = ground (arith, e.beq_iff y x, any_of-false f xs b x)

group_has_own :
    (fuel : ℕ) (s : PermissionStore) (gid p : ℕ) (g : GroupEntry) (b : Bool)
    → group s.users gid ≡ some g
    → listed gid p s.gid_revokes ≡ false
    → own_grant s gid p g ≡ true
    → group_has fuel s gid p ≡ some b
    → b ≡ true
unfolding group_has
group_has_own zero s gid p g b found kept mine h = cc
group_has_own (suc fuel) s gid p g b found kept mine h = ground arith

group_has_linked :
    (fuel : ℕ) (s : PermissionStore) (gid p q : ℕ) (g : GroupEntry) (b : Bool)
    → group s.users gid ≡ some g
    → listed gid p s.gid_revokes ≡ false
    → Set.contains q (parents s p) ≡ true
    → group_has (suc fuel) s gid p ≡ some b
    → (b ≡ true) ⊎ (group_has fuel s gid q ≡ some false)
unfolding group_has
group_has_linked fuel s gid p q g b found kept member h =
    ground (arith, any_of-false (λ (k : ℕ). group_has fuel s gid k) (parents s p) b q)

pub GroupHas-group_has :
    (s : PermissionStore) (gid : ℕ) {p : ℕ}
    → GroupHas s gid p
    → (fuel : ℕ) (b : Bool) → group_has fuel s gid p ≡ some b
    → b ≡ true
GroupHas-group_has s gid {p} (own g found kept mine) fuel b h =
    group_has_own fuel s gid p g b found kept mine h
GroupHas-group_has s gid {p} (linked g q found kept member has) zero b h =
    group_has_none s gid p b h
GroupHas-group_has s gid {p} (linked g q found kept member has) (suc fuel) b h =
    elim (group_has_linked fuel s gid p q g b found kept member h) [
      | inl done ↦ done
      | inr refused ↦ cc (GroupHas-group_has s gid has fuel false refused)
    ]
