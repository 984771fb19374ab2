-- ===== src/Set.antt =====
-- `HashSet<T>` as a list, and what its operations say of membership.
use rind.Prelude.{◌≡◌, refl, Bool, true, false, List, [], ◌∷◌, arith, if◌then◌else◌, Eq, ◌==◌}

module _ {ℓ} {A : Type ℓ} ⦃e : Eq A⦄ where
  unfoldable pub contains : A → List A → Bool
  contains a [] = false
  contains a (x ∷ xs) = if x == a then true else contains a xs

  unfoldable pub insert : A → List A → List A
  unfolding contains
  insert a xs = if contains a xs then xs else a ∷ xs

  unfoldable pub remove : A → List A → List A
  remove a [] = []
  remove a (x ∷ xs) = if x == a then remove a xs else x ∷ remove a xs

  pub contains-nil : (a : A) → contains a [] ≡ false
  unfolding contains
  contains-nil a = refl

  pub contains-insert :
      (a b : A) (xs : List A) → contains b (insert a xs) ≡ (if a == b then true else contains b xs)
  unfolding contains insert
  contains-insert a b xs = ground (arith, e.beq_iff a b, contains_congr a b xs)
    where
      contains_congr : (a b : A) (xs : List A) → a ≡ b → contains a xs ≡ contains b xs
      contains_congr a b xs p = rw p

  pub contains-remove :
      (a b : A) (xs : List A) → contains b (remove a xs) ≡ (if a == b then false else contains b xs)
  unfolding contains remove
  contains-remove a b [] = ground arith
  contains-remove a b (x ∷ xs) =
      ground (arith, e.beq_iff a b, e.beq_iff x a, e.beq_iff x b, contains-remove a b xs)

  pub contains-cons_self : (a : A) (xs : List A) → contains a (a ∷ xs) ≡ true
  unfolding contains
  contains-cons_self a xs = ground (arith, e.beq_iff a a)

  pub contains-cons : (a x : A) (xs : List A) → contains a xs ≡ true → contains a (x ∷ xs) ≡ true
  unfolding contains
  contains-cons a x xs h = ground arith
