-- ===== src/Persistence.antt =====
-- crates/core/src/persistence.rs: the state snapshots and the file they are saved to. The crates
-- bincode_next and crc32fast are parameters. Whether a step on the file system succeeds is an
-- argument.
pub mod Saves
use rind.Prelude.{
  ℕ, ◌≡◌, refl, ◌⊎◌, inl, inr, Bool, true, false, Option, none, some, List, [], ◌∷◌, ◌++◌, take,
  not, if◌then◌else◌, nat_beq, Eq, ◌==◌, nat_eq, arith,
}
use rind.Bytes.{IsU32, u16_to_le, u16_from_le, u32_to_le, u32_from_le, u32_from_le-u32_to_le}
use rind.Map.{Map}
use rind.Text.{Text, codes, text_eq}
use rind.Error.{CoreError, CoreResult, ok, err, persistence_error, unsupported_version, ◌>>=◌}

-- `StateEntry` is its `data`.
abbrev pub StateSnapshot : Type 0
StateSnapshot = Map Text (List (List ℕ))

-- `encode_to_vec` and `decode_from_slice`, an error as its text, and `hash`
pub record Libraries : Type 0 where
  pub encode_to_vec : StateSnapshot → Text ⊎ List ℕ
  pub decode_from_slice : List ℕ → Text ⊎ StateSnapshot
  pub hash : List ℕ → ℕ

-- What their documentation promises: a decoder of what was encoded, and a checksum of 32 bits.
pub record IsSound (l : Libraries) : Type 0 where
  pub decodes :
      (s : StateSnapshot) (bytes : List ℕ)
      → l.encode_to_vec s ≡ inr bytes
      → l.decode_from_slice bytes ≡ inr s
  pub hash_u32 : (bytes : List ℕ) → IsU32 (l.hash bytes)

abbrev pub magic : List ℕ
magic = b'R' ∷ b'I' ∷ b'N' ∷ b'D' ∷ []

abbrev pub version : ℕ
version = 1

-- the payload behind its header
abbrev pub framed : Libraries → List ℕ → List ℕ
framed l payload = magic ++ u16_to_le version ++ u32_to_le (l.hash payload) ++ payload

unfoldable pub encode_snapshot : Libraries → StateSnapshot → CoreResult (List ℕ)
encode_snapshot l s = elim (l.encode_to_vec s) [
  | inl e ↦ err (persistence_error (codes "encode failed: " ++ e))
  | inr payload ↦ ok (framed l payload)
]

-- the decoder behind the ten bytes of the header
unfoldable pub decode_payload : Libraries → ℕ → List ℕ → CoreResult StateSnapshot
decode_payload l expected payload =
    if nat_beq expected (l.hash payload)
    then elim (l.decode_from_slice payload) [
      | inl e ↦ err (persistence_error (codes "decode failed: " ++ e))
      | inr s ↦ ok s
    ]
    else err (persistence_error (codes "decode failed: snapshot checksum mismatch"))

unfoldable pub decode_snapshot : Libraries → List ℕ → CoreResult StateSnapshot
decode_snapshot l (m0 ∷ m1 ∷ m2 ∷ m3 ∷ v0 ∷ v1 ∷ c0 ∷ c1 ∷ c2 ∷ c3 ∷ payload) =
    if (m0 ∷ m1 ∷ m2 ∷ m3 ∷ []) == magic
    then (if nat_beq (u16_from_le v0 v1) version
        then decode_payload l (u32_from_le c0 c1 c2 c3) payload
        else err (unsupported_version (u16_from_le v0 v1)))
    else err (persistence_error (codes "decode failed: invalid snapshot magic"))
decode_snapshot l _ = err (persistence_error (codes "decode failed: snapshot too small"))

-- The file and its temporary, by their contents.
pub record Disk : Type 0 where
  pub target : Option (List ℕ)
  pub tmp : Option (List ℕ)

-- How far a save comes: the step that fails with the text of its error, or none. `write_failed` has
-- the number of bytes written before.
pub data Outcome : Type 0 where
  create_dir_failed create_failed sync_failed rename_failed open_parent_failed sync_parent_failed :
      Text → Outcome
  write_failed : ℕ → Text → Outcome
  done : Outcome

unfoldable pub sync_parent_dir : Outcome → CoreResult (Unit {0})
sync_parent_dir (open_parent_failed e) =
    err (persistence_error (codes "open parent dir failed: " ++ e))
sync_parent_dir (sync_parent_failed e) =
    err (persistence_error (codes "sync parent dir failed: " ++ e))
sync_parent_dir _ = ok tt

-- the steps behind the encoding
unfoldable pub write_bytes : List ℕ → Outcome → Disk → CoreResult (Unit {0}) × Disk
write_bytes bytes (create_dir_failed e) d =
    (err (persistence_error (codes "create dir failed: " ++ e)), d)
write_bytes bytes (create_failed e) d =
    (err (persistence_error (codes "create tmp failed: " ++ e)), d)
write_bytes bytes (write_failed n e) d =
    (err (persistence_error (codes "write failed: " ++ e)), record d { tmp = some (take n bytes) })
write_bytes bytes (sync_failed e) d =
    (err (persistence_error (codes "sync failed: " ++ e)), record d { tmp = some bytes })
write_bytes bytes (rename_failed e) d =
    (err (persistence_error (codes "rename failed: " ++ e)), record d { tmp = some bytes })
write_bytes bytes outcome d = (sync_parent_dir outcome, record { target = some bytes; tmp = none })

-- `write_snapshot`, also `save_sync`
unfoldable pub write_snapshot :
    Libraries → StateSnapshot → Outcome → Disk → CoreResult (Unit {0}) × Disk
write_snapshot l s outcome d = elim (encode_snapshot l s) [
  | err e ↦ (err e, d)
  | ok bytes ↦ write_bytes bytes outcome d
]

-- `load`, where the file can be read
unfoldable pub load : Libraries → Disk → CoreResult StateSnapshot
load l d = elim d.target [ none ↦ ok [] | some content ↦ decode_snapshot l content ]

pub data PersistCommand : Type 0 where
  save : StateSnapshot → Outcome → PersistCommand
  shutdown : PersistCommand

-- the writer's thread: a failed save is reported and the loop goes on
unfoldable pub run_writer : Libraries → List PersistCommand → Disk → Disk
run_writer l [] d = d
run_writer l (shutdown ∷ commands) d = d
run_writer l (save s outcome ∷ commands) d = run_writer l commands (write_snapshot l s outcome d).1
