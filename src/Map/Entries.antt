-- ===== src/Map/Entries.antt =====
-- A property of every entry of a map, which inserting and removing keep.
use rind.Prelude.{◌≡◌, subst, some, [], ◌∷◌, Eq, ◌==◌, arith, Bool-cases, inl, inr, Option-cases}
use rind.Map.{Map, get, get_or, insert, remove}

module _ {ℓ κ μ} {K : Type ℓ} {V : Type κ} ⦃e : Eq K⦄ (P : K → V → Type μ) where
  abbrev pub AllEntries : Map K V → Type μ
  AllEntries [] = Unit {μ}
  AllEntries ((k, v) ∷ m) = P k v × AllEntries m

  pub insert-AllEntries :
      (k : K) (v : V) (m : Map K V) → P k v → AllEntries m → AllEntries (insert k v m)
  unfolding insert
  insert-AllEntries k v [] p h = (p, tt)
  insert-AllEntries k v ((j, w) ∷ m) p h = elim (Bool-cases (j == k)) [
    | inl same ↦ rw (same, insert) (p, h.1)
    | inr other ↦ rw (other, insert) (h.0, insert-AllEntries k v m p h.1)
  ]

  pub remove-AllEntries : (k : K) (m : Map K V) → AllEntries m → AllEntries (remove k m)
  unfolding remove
  remove-AllEntries k [] h = tt
  remove-AllEntries k ((j, w) ∷ m) h = elim (Bool-cases (j == k)) [
    | inl same ↦ rw (same, remove) (remove-AllEntries k m h.1)
    | inr other ↦ rw (other, remove) (h.0, remove-AllEntries k m h.1)
  ]

  pub get-AllEntries : (k : K) (m : Map K V) {v : V} → AllEntries m → get k m ≡ some v → P k v
  unfolding get
  get-AllEntries k [] h found = absurd (ground arith)
  get-AllEntries k ((j, w) ∷ m) {v} h found = elim (Bool-cases (j == k)) [
    | inl same ↦
        let w_v : w ≡ v = ground arith in
        subst (λ x. P k x) w_v (subst (λ x. P x w) ((e.beq_iff j k).0 same) h.0)
    | inr other ↦ get-AllEntries k m h.1 (ground arith)
  ]

  pub get_or-AllEntries : (k : K) (d : V) (m : Map K V) → P k d → AllEntries m → P k (get_or k d m)
  unfolding get_or
  get_or-AllEntries k d m p h = elim (Option-cases (get k m)) [
    | inl missing ↦ rw (missing, get_or) p
    | inr (v, found) ↦ rw (found, get_or) (get-AllEntries k m h found)
  ]
