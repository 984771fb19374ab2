-- ===== src/Shm/Bounds.antt =====
-- Where the ring of crates/ipc/src/shm.rs writes, and what happens where an offset passes 2^32.
use native.Mathlib.Nat.{mod-eq_of_lt, mod-lt, div-add-mod, mul-mod_right, zero-mod}
use rind.Prelude.{
  ℕ, ◌+◌, ◌-◌, ◌*◌, ◌/◌, ◌%◌, ◌≤◌, ◌<◌, ◌≡◌, ◌∙◌, List, [], ◌∷◌, length, arith, Bool-cases,
  not_leb→lt, inl, inr, ◌⊎◌, leb,
}
use rind.Bytes.{u32_mod, IsU32, u32_to_le}
use rind.Shm.{ShmRingBuffer, Memory, data_start, buffer_size, copy_at, write, used, wrapping_add}
use rind.Shm.Circular.{address, ring_store, ring_store_outside}
use rind.Shm.Copy.{copy_at-ring_store}

copy_at_outside :
    (size o p : ℕ) (src : List ℕ) (mem : Memory)
    → 0 < size
    → length src ≤ size
    → length src < u32_mod
    → (p < data_start) ⊎ (data_start + size ≤ p)
    → (copy_at o src size mem).1 p ≡ mem p
copy_at_outside size o p src mem positive n w h =
    rw (copy_at-ring_store size positive src o mem n w)
      (ring_store_outside size positive src o p mem h)

-- A write that leaves room below 2^32 changes no byte below the data area and none at or behind
-- the capacity.
pub write_outside :
    (r : ShmRingBuffer) (m : List ℕ) (p : ℕ)
    → data_start < r.capacity
    → IsU32 r.capacity
    → used r + (length m + 4) < u32_mod
    → (p < data_start) ⊎ (r.capacity ≤ p)
    → (write r m).1.memory p ≡ r.memory p
unfolding write
write_outside r m p a c w h =
    let size = buffer_size r in
    let len : length m % u32_mod ≡ length m = mod-eq_of_lt (omega arith) in
    let outside : (p < data_start) ⊎ (data_start + size ≤ p) = elim h [
      | inl low ↦ inl low
      | inr high ↦ inr (omega arith)
    ] in
    elim (Bool-cases (leb size (wrapping_add (used r) (wrapping_add (length m) 4)))) [
      | inl full ↦ rw (len, full)
      | inr fits ↦
          let short = not_leb→lt _ _ fits in
          rw (len, fits)
            (copy_at_outside size _ p m _ (omega arith) (omega arith) (omega arith) outside
              ∙ copy_at_outside size r.head p (u32_to_le (length m)) r.memory (omega arith)
                  (omega arith) (omega arith) outside)
    ]

ring_store_first : (size b : ℕ) (mem : Memory) → ring_store size (b ∷ []) 0 mem data_start ≡ b
unfolding ring_store
ring_store_first size b mem = ground (arith, zero-mod size)

-- The start of the last stretch of offsets below 2^32 that the data area does not fill.
abbrev pub last_lap : ℕ → ℕ
last_lap size = u32_mod - u32_mod % size

-- Where the size of the data area does not divide 2^32, a copy that ends at the offset 2^32 is
-- followed by a copy to the address of its first byte, though both fit the area.
pub copy_at_overwrites :
    (size b : ℕ) (src : List ℕ) (mem : Memory)
    → size < u32_mod
    → 0 < u32_mod % size
    → 0 < size
    → length src ≡ u32_mod % size
    → let (next, mem') = copy_at (last_lap size) src size mem in
      (length src + 1 ≤ size)
      × ((copy_at next (b ∷ []) size mem').1 (address size (last_lap size)) ≡ b)
copy_at_overwrites size b src mem w rest positive n =
    let o = last_lap size in
    let short : u32_mod % size < size = mod-lt u32_mod positive in
    let wraps : wrapping_add o (length src) ≡ 0 = omega arith in
    let laps : o ≡ size * (u32_mod / size) = omega (arith, div-add-mod u32_mod size) in
    let start : o % size ≡ 0 = rw laps (mul-mod_right size (u32_mod / size)) in
    (
      omega arith,
      rw
          (
            copy_at-ring_store size positive src o mem (omega arith) (omega arith),
            wraps,
            copy_at-ring_store size positive (b ∷ []) 0 (ring_store size src o mem) (omega arith)
                (omega arith),
            start,
          )
          (ring_store_first size b (ring_store size src o mem)),
    )
