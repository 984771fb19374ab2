-- ===== src/Map/Unique.antt =====
-- Maps with one entry for each key, which inserting keeps.
use rind.Prelude.{◌≡◌, refl, none, [], ◌∷◌, Eq, ◌==◌, arith, Bool-cases, inl, inr}
use rind.Map.{Map, get, insert, get-insert}

module _ {ℓ κ} {K : Type ℓ} {V : Type κ} ⦃e : Eq K⦄ where
  abbrev pub Unique : Map K V → Type κ
  Unique [] = Unit {κ}
  Unique ((k, v) ∷ m) = (get k m ≡ none) × Unique m

  pub insert-Unique : (k : K) (v : V) (m : Map K V) → Unique m → Unique (insert k v m)
  unfolding insert get
  insert-Unique k v [] h = (refl, tt)
  insert-Unique k v ((j, w) ∷ m) h = elim (Bool-cases (j == k)) [
    | inl same ↦ rw (same, insert) (ground (arith, e.beq_iff j k, h.0, same), h.1)
    | inr other ↦
        rw (other, insert)
          (
            ground (arith, get-insert k j v m, e.beq_iff k j, e.beq_iff j k, other, h.0),
            insert-Unique k v m h.1,
          )
  ]
