-- ===== src/Shm/Circular.antt =====
-- The data area of a ring of crates/ipc/src/shm.rs read and written at unbounded offsets, byte by
-- byte round the end, and `copy_at` and `read_at` as that.
use native.Mathlib.Nat.{
  mod-lt, mod-eq_of_lt, div-add-mod, mod-add-mod, mod_self, add-zero, zero-add, suc-add,
  mul-le-mul_left, mul-suc,
}
use mathlib.Core.Path.{ap₂}
use rind.Prelude.{
  ℕ, zero, suc, ◌+◌, ◌*◌, ◌/◌, ◌%◌, ◌≤◌, ◌<◌, ◌≡◌, ◌≢◌, refl, ap, sym, ◌∙◌, List, [], ◌∷◌, ◌++◌,
  length, arith, dec_lt, ◌⊎◌,
}
use rind.Shm.{Memory, store, data_start, copy_to, copy_from}

module _ (size : ℕ) where
  -- The address of the byte at an offset.
  abbrev pub address : ℕ → ℕ
  address offset = data_start + offset % size

  unfoldable pub ring_store : List ℕ → ℕ → Memory → Memory
  ring_store [] offset mem = mem
  ring_store (b ∷ src) offset mem = ring_store src (offset + 1) (store mem (address offset) b)

  unfoldable pub ring_load : ℕ → ℕ → Memory → List ℕ
  ring_load zero offset mem = []
  ring_load (suc n) offset mem = mem (address offset) ∷ ring_load n (offset + 1) mem

-- Offsets less than `size` apart have different addresses.
mod_ne_quotients : (s a b qa qb r : ℕ) → a ≡ s * qa + r → b ≡ s * qb + r → a < b → b < a + s → ⊥
mod_ne_quotients s a b qa qb r p q h k = elim (dec_lt qa qb) [
  | yes lt ↦ absurd (omega (arith, mul-le-mul_left s lt, mul-suc s qa))
  | no ge ↦ absurd (omega (arith, mul-le-mul_left {m = qb} {n = qa} s (omega arith)))
]

pub mod_ne : (s a b : ℕ) → a < b → b < a + s → a % s ≢ b % s
mod_ne s a b h k e =
    mod_ne_quotients s a b (a / s) (b / s) (a % s) (sym (div-add-mod a s))
      (sym (div-add-mod b s) ∙ ap (λ (t : ℕ). s * (b / s) + t) (sym e)) h k

-- The offset after `offset` is the next address, or the start of the area.
pub mod-add_one : (s o : ℕ) → o % s + 1 < s → (o + 1) % s ≡ o % s + 1
mod-add_one s o h = rw (← mod-add-mod o s 1) (mod-eq_of_lt h)

pub mod-add_end : (s o k : ℕ) → o % s + k ≡ s → 0 < s → (o + k) % s ≡ 0
mod-add_end s o k h p = rw (← mod-add-mod o s k, h) (mod_self s)

store_self : (mem : Memory) (p b : ℕ) → store mem p b p ≡ b
store_self mem p b = ground arith

store_ne : (mem : Memory) (p b q : ℕ) → p ≢ q → store mem p b q ≡ mem q
store_ne mem p b q h = ground arith

module _ (size : ℕ) where
  -- A store leaves alone what lies before it, less than once round.
  pub ring_store_before :
      (src : List ℕ) (o p : ℕ) (mem : Memory)
      → p < o
      → o + length src ≤ p + size
      → ring_store size src o mem (address size p) ≡ mem (address size p)
  unfolding ring_store
  ring_store_before [] o p mem h k = refl
  ring_store_before (b ∷ src) o p mem h k =
      ring_store_before src (o + 1) p (store mem (address size o) b) (omega arith) (omega arith)
      ∙ store_ne mem (address size o) b (address size p)
          (λ e. mod_ne size p o h (omega arith) (omega arith))

  pub ring_load_before :
      (n p : ℕ) (src : List ℕ) (o : ℕ) (mem : Memory)
      → p + n ≤ o
      → o + length src ≤ p + size
      → ring_load size n p (ring_store size src o mem) ≡ ring_load size n p mem
  unfolding ring_load
  ring_load_before zero p src o mem h k = refl
  ring_load_before (suc n) p src o mem h k =
      ap₂ ◌∷◌ (ring_store_before src o p mem (omega arith) k)
        (ring_load_before n (p + 1) src o mem (omega arith) (omega arith))

  -- What is stored is loaded again.
  pub ring_load-ring_store :
      (src : List ℕ) (o : ℕ) (mem : Memory)
      → length src ≤ size
      → ring_load size (length src) o (ring_store size src o mem) ≡ src
  unfolding ring_load ring_store
  ring_load-ring_store [] o mem h = refl
  ring_load-ring_store (b ∷ src) o mem h =
      ap₂ ◌∷◌
        (ring_store_before src (o + 1) o (store mem (address size o) b) (omega arith) (omega arith)
          ∙ store_self mem (address size o) b)
        (ring_load-ring_store src (o + 1) (store mem (address size o) b) (omega arith))

  pub ring_load-add :
      (m n o : ℕ) (mem : Memory)
      → ring_load size (m + n) o mem ≡ ring_load size m o mem ++ ring_load size n (o + m) mem
  unfolding ring_load
  ring_load-add zero n o mem = rw (zero-add, add-zero)
  ring_load-add (suc m) n o mem =
      let e : o + suc m ≡ o + 1 + m = omega arith in
      rw (e, suc-add m n) (ap (λ t. mem (address size o) ∷ t) (ring_load-add m n (o + 1) mem))

  pub ring_store-append :
      (xs ys : List ℕ) (o : ℕ) (mem : Memory)
      → ring_store size (xs ++ ys) o mem
        ≡ ring_store size ys (o + length xs) (ring_store size xs o mem)
  unfolding ring_store
  ring_store-append [] ys o mem = rw add-zero
  ring_store-append (x ∷ xs) ys o mem =
      let e : o + suc (length xs) ≡ o + 1 + length xs = omega arith in
      rw e (ring_store-append xs ys (o + 1) (store mem (address size o) x))

  pub length-ring_load : (n o : ℕ) (mem : Memory) → length (ring_load size n o mem) ≡ n
  unfolding ring_load
  length-ring_load zero o mem = refl
  length-ring_load (suc n) o mem = ap suc (length-ring_load n (o + 1) mem)

module _ (size : ℕ) (positive : 0 < size) where
  pub copy_to-ring_store :
      (src : List ℕ) (o : ℕ) (mem : Memory)
      → o % size + length src ≤ size
      → copy_to src (address size o) mem ≡ ring_store size src o mem
  unfolding copy_to ring_store
  copy_to-ring_store [] o mem h = refl
  copy_to-ring_store (b ∷ []) o mem h = refl
  copy_to-ring_store (b ∷ c ∷ src) o mem h =
      let e : address size (o + 1) ≡ address size o + 1 =
        rw (mod-add_one size o (omega arith)) (omega arith) in
      rw (← e) (copy_to-ring_store (c ∷ src) (o + 1) (store mem (address size o) b) (omega arith))

  pub copy_from-ring_load :
      (n o : ℕ) (mem : Memory)
      → o % size + n ≤ size
      → copy_from n (address size o) mem ≡ ring_load size n o mem
  unfolding copy_from ring_load
  copy_from-ring_load zero o mem h = refl
  copy_from-ring_load (suc zero) o mem h = refl
  copy_from-ring_load (suc (suc n)) o mem h =
      let e : address size (o + 1) ≡ address size o + 1 =
        rw (mod-add_one size o (omega arith)) (omega arith) in
      rw (← e)
        (ap (λ t. mem (address size o) ∷ t) (copy_from-ring_load (suc n) (o + 1) mem (omega arith)))

-- A store stays inside the data area.
pub ring_store_outside :
    (size : ℕ)
    → 0 < size
    → (src : List ℕ) (o p : ℕ) (mem : Memory) → (p < data_start) ⊎ (data_start + size ≤ p)
    → ring_store size src o mem p ≡ mem p
unfolding ring_store
ring_store_outside size positive [] o p mem h = refl
ring_store_outside size positive (b ∷ src) o p mem h =
    ring_store_outside size positive src (o + 1) p (store mem (address size o) b) h
    ∙ store_ne mem (address size o) b p (λ e. omega (arith, mod-lt o positive))
