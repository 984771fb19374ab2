-- ===== src/Shm/Refine.antt =====
-- The ring of crates/ipc/src/shm.rs implements the queue of `Shm.Queue` as long as its offsets stay
-- below 2^32.
use native.Mathlib.Nat.{mod-eq_of_lt}
use mathlib.Core.Path.{ap₂}
use rind.Prelude.{
  ℕ, ◌+◌, ◌%◌, ◌≤◌, ◌<◌, ◌≡◌, ◌≢◌, refl, sym, ap, ◌∙◌, subst, Bool, true, false, Option, none, some,
  List, [], ◌∷◌, ◌++◌, length, arith, leb, nat_beq, Bool-cases, leb→le, not_leb→lt, le→leb,
  lt→not_leb, inl, inr, ◌⊎◌, append-injective,
}
use rind.Bytes.{u32_mod, IsU32, u32_to_le, u32_from_le-u32_to_le}
use rind.Shm.{
  ShmRingBuffer, Memory, data_start, buffer_size, write, read, used, wrapping_add, wrapping_sub,
}
use rind.Shm.Circular.{
  ring_store, ring_load, ring_store-append, ring_load-add, ring_load_before, ring_load-ring_store,
  length-ring_load,
}
use rind.Shm.Copy.{copy_at-ring_store, read_at-ring_load}
use rind.Shm.Queue.{
  Queue, frame, frames, occupied, push, pop, Op, send, receive, run_queue, run_ring, traffic, Reply,
  sent, received, frames-push, occupied-push,
}

-- The ring's header is in order, and the bytes from `tail` up to `head` are the queue's frames.
pub record Represents (r : ShmRingBuffer) (q : Queue) : Type 0 where
  pub area : data_start < r.capacity
  pub capacity_u32 : IsU32 r.capacity
  pub head_u32 : IsU32 r.head
  pub counted : r.head ≡ r.tail + occupied q
  pub room : occupied q + data_start < r.capacity
  pub content : ring_load (buffer_size r) (occupied q) r.tail r.memory ≡ frames q

pub write_lem :
    (r : ShmRingBuffer) (m : List ℕ)
    → data_start < r.capacity
    → IsU32 r.capacity
    → used r + (length m + 4) < buffer_size r
    → r.head + (length m + 4) < u32_mod
    → write r m ≡ (
      true,
      record r {
        head = r.head + (length m + 4);
        memory = ring_store (buffer_size r) (frame m) r.head r.memory;
      },
    )
unfolding write
write_lem r m a c room w =
    let size = buffer_size r in
    let positive : 0 < size = omega arith in
    let len : length m % u32_mod ≡ length m = mod-eq_of_lt (omega arith) in
    let mid : (r.head + 4) % u32_mod ≡ r.head + 4 = mod-eq_of_lt (omega arith) in
    let fits : leb size (wrapping_add (used r) (wrapping_add (length m) 4)) ≡ false =
      lt→not_leb _ _ (omega arith) in
    let end : (r.head + 4 + length m) % u32_mod ≡ r.head + (length m + 4) = omega arith in
    rw (
      len,
      fits,
      copy_at-ring_store size positive (u32_to_le (length m)) r.head r.memory (omega arith)
          (omega arith),
      mid,
      copy_at-ring_store size positive m (r.head + 4)
          (ring_store size (u32_to_le (length m)) r.head r.memory) (omega arith) (omega arith),
      ← ring_store-append size (u32_to_le (length m)) m r.head r.memory,
      end,
    )

pub read_lem :
    (r : ShmRingBuffer) (n : ℕ)
    → data_start < r.capacity
    → IsU32 r.capacity
    → r.tail ≢ r.head
    → n + 4 < buffer_size r
    → r.tail + (n + 4) < u32_mod
    → ring_load (buffer_size r) 4 r.tail r.memory ≡ u32_to_le n
    → read r ≡ (
      some (ring_load (buffer_size r) n (r.tail + 4) r.memory),
      record r { tail = r.tail + (n + 4) },
    )
unfolding read
read_lem r n a c ne room w e =
    let size = buffer_size r in
    let positive : 0 < size = omega arith in
    let mid : (r.tail + 4) % u32_mod ≡ r.tail + 4 = mod-eq_of_lt (omega arith) in
    let end : (r.tail + 4 + n) % u32_mod ≡ r.tail + (n + 4) = omega arith in
    let open_ : nat_beq r.tail r.head ≡ false = ground arith in
    rw (
      open_,
      read_at-ring_load size positive 4 r.tail r.memory (omega arith),
      e,
      mid,
      u32_from_le-u32_to_le n (omega arith),
      read_at-ring_load size positive n (r.tail + 4) r.memory (omega arith),
      end,
    )

pub read_empty : (r : ShmRingBuffer) → r.tail ≡ r.head → read r ≡ (none, r)
unfolding read
read_empty r e = ground arith

pub write_full :
    (r : ShmRingBuffer) (m : List ℕ)
    → buffer_size r ≤ used r + (length m + 4)
    → used r + (length m + 4) < u32_mod
    → write r m ≡ (false, r)
unfolding write
write_full r m full w =
    let len : length m % u32_mod ≡ length m = mod-eq_of_lt (omega arith) in
    let refused : leb (buffer_size r) (wrapping_add (used r) (wrapping_add (length m) 4)) ≡ true =
      le→leb _ _ (omega arith) in
    rw (len, refused)

module _ (size tail : ℕ) (mem : Memory) where
  content-push :
      (q : Queue) (m : List ℕ)
      → occupied q + (length m + 4) ≤ size
      → ring_load size (occupied q) tail mem ≡ frames q
      → ring_load size
          (occupied (q ++ m ∷ []))
          tail
          (ring_store size (frame m) (tail + occupied q) mem)
        ≡ frames (q ++ m ∷ [])
  content-push q m fits content =
      let o = tail + occupied q in
      let grown : occupied (q ++ m ∷ []) ≡ occupied q + length (frame m) =
        omega (arith, occupied-push q m) in
      rw
        (
          grown,
          frames-push q m,
          ring_load-add size (occupied q) (length (frame m)) tail (ring_store size (frame m) o mem),
          ring_load_before size (occupied q) tail (frame m) o mem (omega arith) (omega arith),
          content,
        )
        (ap (λ (t : List ℕ). frames q ++ t)
          (ring_load-ring_store size (frame m) o mem (omega arith)))

  content-pop :
      (q : Queue) (m : List ℕ)
      → ring_load size (occupied (m ∷ q)) tail mem ≡ frames (m ∷ q)
      → (ring_load size 4 tail mem ≡ u32_to_le (length m))
        × (ring_load size (length m) (tail + 4) mem ≡ m)
        × (ring_load size (occupied q) (tail + 4 + length m) mem ≡ frames q)
  content-pop q m content =
      let n = length m in
      let sum : 4 + (n + occupied q) ≡ occupied (m ∷ q) = omega arith in
      let whole : ring_load size 4 tail mem ++ ring_load size (n + occupied q) (tail + 4) mem
          ≡ u32_to_le n ++ (m ++ frames q) =
        sym (ring_load-add size 4 (n + occupied q) tail mem)
        ∙ ap (λ (t : ℕ). ring_load size t tail mem) sum
        ∙ content in
      let (word, rest) = append-injective _ _ _ _ (length-ring_load size 4 tail mem) whole in
      let (bytes, after) =
        append-injective _ _ m (frames q) (length-ring_load size n (tail + 4) mem)
          (sym (ring_load-add size n (occupied q) (tail + 4) mem) ∙ rest) in
      (word, bytes, after)

module _ (r : ShmRingBuffer) where
  used-occupied : (q : Queue) → Represents r q → used r ≡ occupied q
  used-occupied q v = ground (arith, v)

  -- A write of a message that fits appends it to the queue, and any other changes nothing.
  pub write_refines :
      (q : Queue) (m : List ℕ)
      → Represents r q
      → r.head + (length m + 4) < u32_mod
      → let (done, r') = write r m in
        let (done', q') = push (buffer_size r) q m in
        (done ≡ done')
        × Represents r' q'
        × (r'.capacity ≡ r.capacity)
        × (r'.head ≤ r.head + (length m + 4))
  write_refines q m v w =
      let held = used-occupied q v in
      elim (Bool-cases (leb (buffer_size r) (occupied q + (length m + 4)))) [
        | inl full ↦
            rw (full, write_full r m (omega (arith, leb→le _ _ full)) (omega arith))
              (refl, v, refl, omega arith)
        | inr fits ↦
            let short = not_leb→lt _ _ fits in
            rw (fits, write_lem r m v.area v.capacity_u32 (omega arith) w)
              (
                refl,
                record {
                  area = v.area;
                  capacity_u32 = v.capacity_u32;
                  head_u32 = w;
                  counted = omega (arith, occupied-push q m);
                  room = omega (arith, occupied-push q m);
                  content =
                      subst
                        (λ (h : ℕ).
                          ring_load (buffer_size r) (occupied (q ++ m ∷ [])) r.tail
                            (ring_store (buffer_size r) (frame m) h r.memory)
                          ≡ frames (q ++ m ∷ []))
                        (sym v.counted)
                        (content-push (buffer_size r) r.tail r.memory q m (omega arith) v.content);
                },
                refl,
                omega arith,
              )
      ]

  -- the same by cases
  pub write_cases :
      (q : Queue) (m : List ℕ)
      → Represents r q
      → r.head + (length m + 4) < u32_mod
      → (write r m ≡ (false, r)) ⊎ (((write r m).0 ≡ true) × Represents (write r m).1 (q ++ m ∷ []))
  write_cases q m v w = elim (Bool-cases (leb (buffer_size r) (occupied q + (length m + 4)))) [
    | inl full ↦ inl (
        write_full r m (omega (arith, leb→le _ _ full, used-occupied q v))
          (omega (arith, used-occupied q v)))
    | inr fits ↦ let done = rw fits at (write_refines q m v w) in inr (done.0, done.1)
  ]

  read_refines_cons :
      (m : List ℕ) (q : Queue)
      → Represents r (m ∷ q)
      → (read r ≡ (some m, record r { tail = r.tail + (length m + 4) }))
        × Represents (record r { tail = r.tail + (length m + 4) }) q
  read_refines_cons m q v =
      let n = length m in
      let (word, bytes, after) = content-pop (buffer_size r) r.tail r.memory q m v.content in
      let moved : r.tail + 4 + n ≡ r.tail + (n + 4) = omega arith in
      (
        read_lem r n v.area v.capacity_u32 (omega arith) (omega arith) (omega arith) word
            ∙ ap (λ (b : List ℕ). (some b, record r { tail = r.tail + (n + 4) })) bytes,
        record {
          area = v.area;
          capacity_u32 = v.capacity_u32;
          head_u32 = v.head_u32;
          counted = omega arith;
          room = omega arith;
          content =
              subst (λ (t : ℕ). ring_load (buffer_size r) (occupied q) t r.memory ≡ frames q) moved
                after;
        },
      )

  -- A read takes the oldest message, or finds none exactly where the queue is empty.
  pub read_refines :
      (q : Queue)
      → Represents r q
      → let (m, r') = read r in
        let (m', q') = pop q in
        (m ≡ m') × Represents r' q' × (r'.capacity ≡ r.capacity) × (r'.head ≡ r.head)
  read_refines [] v = rw (read_empty r (omega arith)) (refl, v, refl, refl)
  read_refines (m ∷ q) v = let (e, v') = read_refines_cons m q v in rw e (refl, v', refl, refl)

-- A sequence of writes and reads on a ring that represents a queue, sending less than the rest of
-- 2^32 bytes, gets the replies of a FIFO queue of messages of the data area's size.
pub run_ring_refines :
    (r : ShmRingBuffer) (q : Queue) (ops : List Op)
    → Represents r q
    → r.head + traffic ops < u32_mod
    → run_ring r ops ≡ run_queue (buffer_size r) q ops
unfolding run_ring run_queue
run_ring_refines r q [] v w = refl
run_ring_refines r q (send m ∷ ops) v w =
    let (e, v', c, h) = write_refines r q m v (omega arith) in
    ap₂ (λ (b : Bool) (rest : List Reply). sent b ∷ rest) e
      (run_ring_refines (write r m).1 (push (buffer_size r) q m).1 ops v' (omega arith)
        ∙ ap (λ (k : ℕ). run_queue (wrapping_sub k data_start) (push (buffer_size r) q m).1 ops) c)
run_ring_refines r q (receive ∷ ops) v w =
    let (e, v', c, h) = read_refines r q v in
    ap₂ (λ (b : Option (List ℕ)) (rest : List Reply). received b ∷ rest) e
      (run_ring_refines (read r).1 (pop q).1 ops v' (omega arith)
        ∙ ap (λ (k : ℕ). run_queue (wrapping_sub k data_start) (pop q).1 ops) c)
