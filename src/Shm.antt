-- ===== src/Shm.antt =====
-- crates/ipc/src/shm.rs: the ring buffer in shared memory. The memory is a function from an
-- address, counted from `ptr`, to a byte; the three header words stand in fields of their own.
-- `u32` arithmetic wraps, as it does in a release build. The two byte orders of the length word,
-- `to_ne_bytes` and `from_ne_bytes`, are those of a little-endian machine.
pub mod Circular
pub mod Copy
pub mod Queue
pub mod Refine
pub mod Bounds
pub mod Stream
use rind.Prelude.{
  ℕ, zero, suc, ◌+◌, ◌-◌, ◌%◌, ◌≤◌, ◌<◌, ◌≡◌, Bool, true, false, Option, none, some, List, [], ◌∷◌,
  ◌++◌, if◌then◌else◌, leb, nat_beq, length, take, drop,
}
use rind.Bytes.{u32_mod, u32_to_le, u32_from_le}

abbrev pub Memory : Type 0
Memory = ℕ → ℕ

abbrev pub store : Memory → ℕ → ℕ → Memory
store mem p b q = if nat_beq p q then b else mem q

-- `ShmHeader` and the memory behind it.
pub record ShmRingBuffer : Type 0 where
  pub head : ℕ
  pub tail : ℕ
  pub capacity : ℕ
  pub memory : Memory

-- `size_of::<ShmHeader>()`
abbrev pub data_start : ℕ
data_start = 12

abbrev pub wrapping_add : ℕ → ℕ → ℕ
wrapping_add a b = (a + b) % u32_mod

abbrev pub wrapping_sub : ℕ → ℕ → ℕ
wrapping_sub a b = (a + u32_mod - b) % u32_mod

-- `copy_nonoverlapping` into the memory, to address `p`
unfoldable pub copy_to : List ℕ → ℕ → Memory → Memory
copy_to [] p mem = mem
copy_to (b ∷ src) p mem = copy_to src (p + 1) (store mem p b)

-- `copy_nonoverlapping` of `n` bytes out of the memory, from address `p`
unfoldable pub copy_from : ℕ → ℕ → Memory → List ℕ
copy_from zero p mem = []
copy_from (suc n) p mem = mem p ∷ copy_from n (p + 1) mem

abbrev pub buffer_size : ShmRingBuffer → ℕ
buffer_size r = wrapping_sub r.capacity data_start

-- The source's function returns the new offset; the memory that it leaves stands beside it.
unfoldable pub copy_at : ℕ → List ℕ → ℕ → Memory → ℕ × Memory
copy_at offset src size mem =
    let len = length src % u32_mod in
    let pos = offset % size in
    let space_to_end = size - pos in
    (
      wrapping_add offset len,
      if leb len space_to_end
          then copy_to (take len src) (data_start + pos) mem
          else copy_to (take (len - space_to_end) (drop space_to_end src)) data_start
              (copy_to (take space_to_end src) (data_start + pos) mem),
    )

unfoldable pub read_at : ℕ → ℕ → ℕ → Memory → ℕ × List ℕ
read_at offset len size mem =
    let pos = offset % size in
    let space_to_end = size - pos in
    (
      wrapping_add offset len,
      if leb len space_to_end
          then copy_from len (data_start + pos) mem
          else copy_from space_to_end (data_start + pos) mem
            ++ copy_from (len - space_to_end) data_start mem,
    )

abbrev pub used : ShmRingBuffer → ℕ
used r =
    if leb r.tail r.head
    then r.head - r.tail
    else wrapping_add (wrapping_add (u32_mod - 1 - r.tail) r.head) 1

unfoldable pub write : ShmRingBuffer → List ℕ → Bool × ShmRingBuffer
write r data' =
    let len = length data' % u32_mod in
    let total_len = wrapping_add len 4 in
    let size = buffer_size r in
    if leb size (wrapping_add (used r) total_len)
    then (false, r)
    else let (mid, mem) = copy_at r.head (u32_to_le len) size r.memory in
      let (head', mem') = copy_at mid data' size mem in
      (true, record r { head = head'; memory = mem' })

-- the length that the first four bytes read give
abbrev pub length_word : List ℕ → ℕ
length_word (a ∷ b ∷ c ∷ d ∷ []) = u32_from_le a b c d
length_word _ = 0

unfoldable pub read : ShmRingBuffer → Option (List ℕ) × ShmRingBuffer
read r =
    if nat_beq r.tail r.head
    then (none, r)
    else let size = buffer_size r in
      let (mid, len_bytes) = read_at r.tail 4 size r.memory in
      let (tail', bytes) = read_at mid (length_word len_bytes) size r.memory in
      (some bytes, record r { tail = tail' })
