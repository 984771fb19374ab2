-- ===== src/Shm/Stream.antt =====
-- `ShmStream` of crates/ipc/src/shm.rs, its `Read` and `Write`. Whether the event descriptor's
-- read and write succeed is an argument of each call.
use rind.Prelude.{
  ℕ, zero, suc, ◌+◌, ◌≤◌, ◌<◌, ◌≡◌, refl, sym, ap, ◌∙◌, Bool, none, some, List, [], ◌∷◌, ◌++◌,
  length, take, drop, min, arith, if◌then◌else◌, Bool-cases, ◌⊎◌, inl, inr, is_empty, append_assoc,
  append-nil, take-append-drop,
}
use rind.Bytes.{u32_mod}
use rind.Shm.{ShmRingBuffer}
use rind.Shm
use rind.Shm.Queue.{Queue, occupied}
use rind.Shm.Refine.{Represents, read_refines, write_cases}

pub record ShmStream : Type 0 where
  pub ring : ShmRingBuffer
  pub read_cache : List ℕ

pub data IoResult {ℓ} (A : Type ℓ) : Type ℓ where
  ok : A → IoResult A
  would_block other : IoResult A

-- `while let Some(mut data) = self.ring.read() { self.read_cache.append(&mut data) }`, with fuel
unfoldable pub drain : ℕ → ShmStream → ShmStream
drain zero s = s
drain (suc fuel) s =
    let (message, r) = Shm.read s.ring in
    elim message [
      | none ↦ record s { ring = r }
      | some bytes ↦ drain fuel (record { ring = r; read_cache = s.read_cache ++ bytes })
    ]

-- Copy out `min(buf.len(), cache.len())` bytes.
unfoldable pub serve : ℕ → ShmStream → IoResult (List ℕ) × ShmStream
serve n s =
    let bytes_to_copy = min n (length s.read_cache) in
    (
      ok (take bytes_to_copy s.read_cache),
      record s { read_cache = drop bytes_to_copy s.read_cache },
    )

-- `Read::read` into a buffer of `n` bytes. Each message holds four bytes of the ring at least, so
-- `capacity` rounds drain it.
unfoldable pub read : Bool → ℕ → ShmStream → IoResult (List ℕ) × ShmStream
read wake n s =
    if is_empty s.read_cache
    then (if wake
        then (let s' = drain s.ring.capacity s in
            if is_empty s'.read_cache then (would_block, s') else serve n s')
        else (other, s))
    else serve n s

-- `Write::write`. An empty buffer is not sent.
unfoldable pub write : Bool → List ℕ → ShmStream → IoResult ℕ × ShmStream
write woken buf s =
    if is_empty buf
    then (ok 0, s)
    else let (done, r) = Shm.write s.ring buf in
      if done
      then (if woken then ok (length buf) else other, record s { ring = r })
      else (would_block, record s { ring = r })

abbrev pub flatten : Queue → List ℕ
flatten [] = []
flatten (m ∷ q) = m ++ flatten q

flatten-push : (q : Queue) (m : List ℕ) → flatten (q ++ m ∷ []) ≡ flatten q ++ m
flatten-push [] m = append-nil m
flatten-push (k ∷ q) m =
    ap (λ (t : List ℕ). k ++ t) (flatten-push q m) ∙ sym (append_assoc k (flatten q) m)

-- the bytes that the reader has yet to be given
abbrev pub pending : ShmStream → Queue → List ℕ
pending s q = s.read_cache ++ flatten q

drain_lem :
    (fuel : ℕ) (s : ShmStream) (q : Queue)
    → Represents s.ring q
    → length q < fuel
    → Represents (drain fuel s).ring [] × ((drain fuel s).read_cache ≡ pending s q)
unfolding drain
drain_lem zero s q v h = absurd (omega arith)
drain_lem (suc fuel) s [] v h =
    let (e, v', _, _) = read_refines s.ring [] v in
    rw (e, drain) (v', sym (append-nil s.read_cache))
drain_lem (suc fuel) s (m ∷ q) v h =
    let (e, v', _, _) = read_refines s.ring (m ∷ q) v in
    let s' : ShmStream = record { ring = (Shm.read s.ring).1; read_cache = s.read_cache ++ m } in
    let (v'', held) = drain_lem fuel s' q v' (omega arith) in
    rw (e, drain) (v'', held ∙ append_assoc s.read_cache m (flatten q))

length-occupied : (q : Queue) → length q ≤ occupied q
length-occupied [] = omega arith
length-occupied (m ∷ q) = omega (arith, length-occupied q)

-- What a read hands out and what it leaves to be read.
abbrev pub bytes_of : IoResult (List ℕ) → List ℕ
bytes_of (ok bs) = bs
bytes_of would_block = []
bytes_of other = []

serve-pending :
    (n : ℕ) (s : ShmStream) (q : Queue)
    → Represents s.ring q
    → Represents (serve n s).1.ring q
      × (bytes_of (serve n s).0 ++ pending (serve n s).1 q ≡ pending s q)
unfolding serve
serve-pending n s q v =
    let k = min n (length s.read_cache) in
    (
      v,
      sym (append_assoc (take k s.read_cache) (drop k s.read_cache) (flatten q))
          ∙ ap (λ (t : List ℕ). t ++ flatten q) (take-append-drop k s.read_cache),
    )

-- Every outcome of a stream read on a ring that represents a queue leaves a ring that represents a
-- queue, and the bytes handed out followed by those still pending are those that were pending.
pub read-pending :
    (wake : Bool) (n : ℕ) (s : ShmStream) (q : Queue)
    → Represents s.ring q
    → let (result, s') = read wake n s in
      (q' : Queue) × Represents s'.ring q' × (bytes_of result ++ pending s' q' ≡ pending s q)
unfolding read
read-pending wake n s q v =
    let s' = drain s.ring.capacity s in
    let (v', held) = drain_lem s.ring.capacity s q v (omega (arith, length-occupied q)) in
    let gathered : s'.read_cache ++ [] ≡ pending s q = append-nil s'.read_cache ∙ held in
    let (kept, order) = serve-pending n s' [] v' in
    elim (Bool-cases (is_empty s.read_cache)) [
      | inr cached ↦ rw cached (q, (serve-pending n s q v).0, (serve-pending n s q v).1)
      | inl empty ↦ elim (Bool-cases wake) [
        | inr failed ↦ rw (empty, failed) (q, v, refl)
        | inl awake ↦ elim (Bool-cases (is_empty s'.read_cache)) [
          | inl nothing ↦ rw (empty, awake, nothing) ([], v', gathered)
          | inr some_bytes ↦ rw (empty, awake, some_bytes) ([], kept, order ∙ gathered)
        ]
      ]
    ]

-- A stream write whose offset stays below 2^32 either appends the whole buffer to the pending
-- bytes, with an error only where the event descriptor fails, or leaves the stream as it was with
-- WouldBlock or an empty buffer.
pub write-pending :
    (woken : Bool) (buf : List ℕ) (s : ShmStream) (q : Queue)
    → Represents s.ring q
    → s.ring.head + (length buf + 4) < u32_mod
    → let (result, s') = write woken buf s in
      ((q' : Queue) × Represents s'.ring q'
        × (pending s' q' ≡ pending s q ++ buf)
        × (result ≡ (if woken then ok (length buf) else other)))
      ⊎ ((s'.read_cache ≡ s.read_cache)
          × Represents s'.ring q
          × ((result ≡ would_block) ⊎ ((result ≡ ok 0) × (buf ≡ []))))
unfolding write
write-pending woken [] s q v w = inr (refl, v, inr (refl, refl))
write-pending woken (b ∷ buf) s q v w = elim (write_cases s.ring q (b ∷ buf) v w) [
  | inl refused ↦ rw (refused, write) (inr (refl, v, inl refl))
  | inr (done, v') ↦
      rw (done, write)
        (inl (
          q ++ (b ∷ buf) ∷ [],
          v',
          ap (λ (t : List ℕ). s.read_cache ++ t) (flatten-push q (b ∷ buf))
              ∙ sym (append_assoc s.read_cache (flatten q) (b ∷ buf)),
          refl,
        ))
]
