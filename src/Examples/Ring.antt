-- ===== src/Examples/Ring.antt =====
-- The theorems about crates/ipc/src/shm.rs at a ring of 16 bytes.
use rind.Prelude.{
  ℕ, ◌+◌, ◌≤◌, ◌≡◌, ◌⊎◌, refl, true, false, List, [], ◌∷◌, ◌++◌, length, if◌then◌else◌, arith,
}
use rind.Shm.{ShmRingBuffer, buffer_size, copy_at, write}
use rind.Shm.Circular.{address, ring_load}
use rind.Shm.Queue.{Queue, Op, send, receive, run_ring, run_queue}
use rind.Shm.Refine.{Represents, write_refines, run_ring_refines}
use rind.Shm.Bounds.{copy_at_overwrites, last_lap}
use rind.Shm.Stream.{
  ShmStream, IoResult, ok, would_block, other, bytes_of, pending, read-pending, write-pending,
}
use rind.Shm.Stream

abbrev fresh : ShmRingBuffer
fresh = record { head = 5; tail = 5; capacity = 28; memory = λ p. 0 }

fresh-Represents : Represents fresh []
unfolding ring_load
fresh-Represents = record {
  area = omega arith;
  capacity_u32 = omega arith;
  head_u32 = omega arith;
  counted = omega arith;
  room = omega arith;
  content = refl;
}

abbrev calls : List Op
calls = send (1 ∷ 2 ∷ []) ∷ send (3 ∷ []) ∷ send (4 ∷ 5 ∷ []) ∷ receive ∷ receive ∷ receive ∷ []

run_ring_refines_example : run_ring fresh calls ≡ run_queue (buffer_size fresh) [] calls
run_ring_refines_example = run_ring_refines fresh [] calls fresh-Represents (omega arith)

abbrev stream : ShmStream
stream = record { ring = (write fresh (7 ∷ 8 ∷ [])).1; read_cache = [] }

stream-Represents : Represents stream.ring ((7 ∷ 8 ∷ []) ∷ [])
stream-Represents = (write_refines fresh [] (7 ∷ 8 ∷ []) fresh-Represents (omega arith)).1

read-pending_example :
    let (result, s') = Stream.read true 1 stream in
    (q' : Queue) × Represents s'.ring q'
    × (bytes_of result ++ pending s' q' ≡ pending stream ((7 ∷ 8 ∷ []) ∷ []))
read-pending_example = read-pending true 1 stream ((7 ∷ 8 ∷ []) ∷ []) stream-Represents

abbrev idle : ShmStream
idle = record { ring = fresh; read_cache = 9 ∷ [] }

abbrev outgoing : List ℕ
outgoing = 1 ∷ 2 ∷ []

write-pending_example :
    let (result, s') = Stream.write false outgoing idle in
    ((q' : Queue) × Represents s'.ring q'
      × (pending s' q' ≡ pending idle [] ++ outgoing)
      × (result ≡ (if false then ok 2 else other)))
    ⊎ ((s'.read_cache ≡ idle.read_cache)
        × Represents s'.ring []
        × ((result ≡ would_block) ⊎ ((result ≡ ok 0) × (outgoing ≡ []))))
write-pending_example = write-pending false outgoing idle [] fresh-Represents (omega arith)

-- 2^32 is 6 modulo 10
abbrev six_bytes : List ℕ
six_bytes = 1 ∷ 2 ∷ 3 ∷ 4 ∷ 5 ∷ 6 ∷ []

copy_at_overwrites_example :
    let (next, mem') = copy_at (last_lap 10) six_bytes 10 (λ p. 0) in
    (length six_bytes + 1 ≤ 10) × ((copy_at next (9 ∷ []) 10 mem').1 (address 10 (last_lap 10)) ≡ 9)
copy_at_overwrites_example =
    copy_at_overwrites 10 9 six_bytes (λ p. 0) (omega arith) (omega arith) (omega arith) refl
