-- ===== src/Json/Mem.antt =====
-- Members of arrays and entries of objects, and the searches of them.
use rind.Prelude.{◌≡◌, inl, inr, refl, Bool, true, List, [], ◌∷◌, any, arith, Bool-cases}

pub data Mem {ℓ} {A : Type ℓ} (x : A) : List A → Type ℓ where
  here : {xs : List A} → Mem x (x ∷ xs)
  there : {y : A} {xs : List A} → Mem x xs → Mem x (y ∷ xs)

module _ {ℓ} {A : Type ℓ} (p : A → Bool) where
  pub any-Mem : (x : A) {xs : List A} → Mem x xs → p x ≡ true → any p xs ≡ true
  any-Mem x here h = rw h refl
  any-Mem x (there {y} m) h = ground (arith, any-Mem x m h)

  pub any_member : (xs : List A) → any p xs ≡ true → (x : A) × Mem x xs × (p x ≡ true)
  any_member [] h = cc
  any_member (x ∷ xs) h = elim (Bool-cases (p x)) [
    | inl found ↦ (x, here, found)
    | inr passed ↦ let (y, m, found) = any_member xs (ground arith) in (y, there m, found)
  ]
