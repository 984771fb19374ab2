-- ===== src/Shm/Copy.antt =====
-- `copy_at` and `read_at` of crates/ipc/src/shm.rs, which split a copy at the end of the data area,
-- as the byte-by-byte copies of `Shm.Circular`.
use native.Mathlib.Nat.{mod-lt, mod-eq_of_lt}
use mathlib.Core.Path.{ap₂}
use rind.Prelude.{
  ℕ, ◌+◌, ◌-◌, ◌%◌, ◌≤◌, ◌<◌, ◌≡◌, sym, ap, ◌∙◌, List, ◌++◌, length, take, drop, leb, arith,
  take-append-drop, take-length, length-take, length-drop, Bool-cases, leb→le, not_leb→lt, inl, inr,
}
use rind.Bytes.{u32_mod}
use rind.Shm.{Memory, data_start, copy_to, copy_from, copy_at, read_at, wrapping_add}
use rind.Shm.Circular.{
  address, ring_store, ring_load, ring_store-append, ring_load-add, mod-add_end, copy_to-ring_store,
  copy_from-ring_load,
}

module _ (size : ℕ) (positive : 0 < size) where
  -- the copy of the bytes behind the end starts at the data area's first address
  at_end : (o k : ℕ) → o % size + k ≡ size → address size (o + k) ≡ data_start
  at_end o k h = ap (λ (t : ℕ). data_start + t) (mod-add_end size o k h positive)

  copy_split :
      (src : List ℕ) (o k : ℕ) (mem : Memory)
      → o % size + k ≡ size
      → k ≤ length src
      → length src ≤ size
      → copy_to (drop k src) data_start (copy_to (take k src) (address size o) mem)
        ≡ ring_store size src o mem
  copy_split src o k mem h ks n =
      ap₂ (λ (p : ℕ) (m : Memory). copy_to (drop k src) p m) (sym (at_end o k h))
        (copy_to-ring_store size positive (take k src) o mem (omega (arith, length-take k src)))
      ∙ copy_to-ring_store size positive (drop k src) (o + k) (ring_store size (take k src) o mem)
          (omega (arith, length-drop k src, mod-add_end size o k h positive))
      ∙ ap (λ (t : ℕ). ring_store size (drop k src) (o + t) (ring_store size (take k src) o mem))
          (omega (arith, length-take k src))
      ∙ sym (ring_store-append size (take k src) (drop k src) o mem)
      ∙ ap (λ (xs : List ℕ). ring_store size xs o mem) (take-append-drop k src)

  load_split :
      (n o k : ℕ) (mem : Memory)
      → o % size + k ≡ size
      → k ≤ n
      → n ≤ size
      → copy_from k (address size o) mem ++ copy_from (n - k) data_start mem
        ≡ ring_load size n o mem
  load_split n o k mem h kn ns =
      ap₂ ◌++◌ (copy_from-ring_load size positive k o mem (omega arith)) (
        ap (λ (p : ℕ). copy_from (n - k) p mem) (sym (at_end o k h))
        ∙ copy_from-ring_load size positive (n - k) (o + k) mem
            (omega (arith, mod-add_end size o k h positive)))
      ∙ sym (ring_load-add size k (n - k) o mem)
      ∙ ap (λ (t : ℕ). ring_load size t o mem) (omega arith)

  pub copy_at-ring_store :
      (src : List ℕ) (o : ℕ) (mem : Memory)
      → length src ≤ size
      → length src < u32_mod
      → copy_at o src size mem ≡ (wrapping_add o (length src), ring_store size src o mem)
  unfolding copy_at
  copy_at-ring_store src o mem h w =
      let pos = o % size in
      let e : length src % u32_mod ≡ length src = mod-eq_of_lt w in
      rw e (
        ap (λ (m : Memory). (wrapping_add o (length src), m))
          (elim (Bool-cases (leb (length src) (size - pos))) [
            | inl fits ↦
                rw (fits, take-length src)
                  (copy_to-ring_store size positive src o mem
                    (omega (arith, leb→le _ _ fits, mod-lt o positive)))
            | inr splits ↦
                rw (splits, ← length-drop (size - pos) src, take-length (drop (size - pos) src))
                  (copy_split src o (size - pos) mem (omega (arith, mod-lt o positive))
                    (omega (arith, not_leb→lt _ _ splits)) h)
          ]))

  pub read_at-ring_load :
      (n o : ℕ) (mem : Memory)
      → n ≤ size
      → read_at o n size mem ≡ (wrapping_add o n, ring_load size n o mem)
  unfolding read_at
  read_at-ring_load n o mem h =
      let pos = o % size in
      ap (λ (bytes : List ℕ). (wrapping_add o n, bytes))
        (elim (Bool-cases (leb n (size - pos))) [
          | inl fits ↦ rw fits (
              copy_from-ring_load size positive n o mem
                (omega (arith, leb→le _ _ fits, mod-lt o positive)))
          | inr splits ↦ rw splits (
              load_split n o (size - pos) mem (omega (arith, mod-lt o positive))
                (omega (arith, not_leb→lt _ _ splits)) h)
        ])
