-- ===== src/Shm/Queue.antt =====
-- What the ring of crates/ipc/src/shm.rs promises: a queue of messages, oldest first, that accepts
-- a message while the frames in it leave a byte of the data area free.
use rind.Prelude.{
  ℕ, ◌+◌, ◌≡◌, Bool, true, false, Option, none, some, List, [], ◌∷◌, ◌++◌, if◌then◌else◌, leb,
  length, length-append, append_assoc, append-nil, arith, refl, ap, ◌∙◌, sym,
}
use rind.Bytes.{u32_to_le}
use rind.Shm.{ShmRingBuffer}
use rind.Shm

abbrev pub Queue : Type 0
Queue = List (List ℕ)

-- a message behind its length word
abbrev pub frame : List ℕ → List ℕ
frame m = u32_to_le (length m) ++ m

abbrev pub frames : Queue → List ℕ
frames [] = []
frames (m ∷ q) = frame m ++ frames q

abbrev pub occupied : Queue → ℕ
occupied [] = 0
occupied (m ∷ q) = length m + 4 + occupied q

abbrev pub push : ℕ → Queue → List ℕ → Bool × Queue
push size q m = if leb size (occupied q + (length m + 4)) then (false, q) else (true, q ++ m ∷ [])

abbrev pub pop : Queue → Option (List ℕ) × Queue
pop [] = (none, [])
pop (m ∷ q) = (some m, q)

-- A client's calls, and what they return.
pub data Op : Type 0 where
  send : List ℕ → Op
  receive : Op

pub data Reply : Type 0 where
  sent : Bool → Reply
  received : Option (List ℕ) → Reply

unfoldable pub run_queue : ℕ → Queue → List Op → List Reply
run_queue size q [] = []
run_queue size q (send m ∷ ops) =
    let (done, q') = push size q m in sent done ∷ run_queue size q' ops
run_queue size q (receive ∷ ops) = let (m, q') = pop q in received m ∷ run_queue size q' ops

unfoldable pub run_ring : ShmRingBuffer → List Op → List Reply
run_ring r [] = []
run_ring r (send m ∷ ops) = let (done, r') = Shm.write r m in sent done ∷ run_ring r' ops
run_ring r (receive ∷ ops) = let (m, r') = Shm.read r in received m ∷ run_ring r' ops

-- the bytes that the calls would send
abbrev pub traffic : List Op → ℕ
traffic [] = 0
traffic (send m ∷ ops) = length m + 4 + traffic ops
traffic (receive ∷ ops) = traffic ops

pub length-frames : (q : Queue) → length (frames q) ≡ occupied q
length-frames [] = refl
length-frames (m ∷ q) = omega (arith, length-append (frame m) (frames q), length-frames q)

pub frames-push : (q : Queue) (m : List ℕ) → frames (q ++ m ∷ []) ≡ frames q ++ frame m
frames-push [] m = append-nil (frame m)
frames-push (k ∷ q) m =
    ap (λ (t : List ℕ). frame k ++ t) (frames-push q m)
    ∙ sym (append_assoc (frame k) (frames q) (frame m))

pub occupied-push : (q : Queue) (m : List ℕ) → occupied (q ++ m ∷ []) ≡ occupied q + (length m + 4)
occupied-push [] m = omega arith
occupied-push (k ∷ q) m = omega (arith, occupied-push q m)
