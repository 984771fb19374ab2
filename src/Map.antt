-- ===== src/Map.antt =====
-- `HashMap<K, V>` and `BTreeMap<K, V>` as association lists with one entry for a key. Iteration
-- runs in the order of the list.
pub mod Unique
pub mod Entries
use rind.Prelude.{
  ◌≡◌, refl, Bool, true, false, Option, none, some, List, [], ◌∷◌, arith, if◌then◌else◌, Eq, ◌==◌,
}

abbrev pub Map {ℓ κ} : Type ℓ → Type κ → Type (ℓ ⊔ κ)
Map K V = List (K × V)

module _ {ℓ κ} {K : Type ℓ} {V : Type κ} ⦃e : Eq K⦄ where
  -- `get`
  unfoldable pub get : K → Map K V → Option V
  get k [] = none
  get k ((j, v) ∷ m) = if j == k then some v else get k m

  -- `contains_key`
  unfoldable pub contains_key : K → Map K V → Bool
  contains_key k [] = false
  contains_key k ((j, v) ∷ m) = if j == k then true else contains_key k m

  -- `insert`, which replaces the entry of the key
  unfoldable pub insert : K → V → Map K V → Map K V
  insert k v [] = (k, v) ∷ []
  insert k v ((j, w) ∷ m) = if j == k then (k, v) ∷ m else (j, w) ∷ insert k v m

  -- the map that `remove` leaves
  unfoldable pub remove : K → Map K V → Map K V
  remove k [] = []
  remove k ((j, w) ∷ m) = if j == k then remove k m else (j, w) ∷ remove k m

  -- `retain`
  unfoldable pub retain : (K → V → Bool) → Map K V → Map K V
  retain p [] = []
  retain p ((j, w) ∷ m) = let rest = retain p m in if p j w then (j, w) ∷ rest else rest

  -- `get(k).cloned().unwrap_or(d)`
  unfoldable pub get_or : K → V → Map K V → V
  unfolding get
  get_or k d m = elim (get k m) [ none ↦ d | some v ↦ v ]

  pub get-insert :
      (k j : K) (v : V) (m : Map K V) → get j (insert k v m) ≡ (if k == j then some v else get j m)
  unfolding get insert
  get-insert k j v [] = refl
  get-insert k j v ((i, w) ∷ m) =
      ground (arith, e.beq_iff k j, e.beq_iff i k, e.beq_iff i j, get-insert k j v m)

  pub get-remove : (k j : K) (m : Map K V) → get j (remove k m) ≡ (if k == j then none else get j m)
  unfolding get remove
  get-remove k j [] = ground arith
  get-remove k j ((i, w) ∷ m) =
      ground (arith, e.beq_iff k j, e.beq_iff i k, e.beq_iff i j, get-remove k j m)

  pub get-get_or : (k : K) (d : V) (m : Map K V) (v : V) → get k m ≡ some v → get_or k d m ≡ v
  unfolding get_or
  get-get_or k d m v h = rw (h, get_or)

  pub get-retain :
      (p : K → V → Bool) (k : K) (m : Map K V) (v : V)
      → get k m ≡ some v
      → p k v ≡ true
      → get k (retain p m) ≡ some v
  unfolding get retain
  get-retain p k [] v h t = h
  get-retain p k ((j, w) ∷ m) v h t = ground (arith, e.beq_iff j k, get-retain p k m v)

  pub get_or-insert :
      (k j : K) (v d : V) (m : Map K V)
      → get_or j d (insert k v m) ≡ (if k == j then v else get_or j d m)
  unfolding get_or
  get_or-insert k j v d m = ground (arith, get-insert k j v m)
