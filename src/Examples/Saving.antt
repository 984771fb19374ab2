-- ===== src/Examples/Saving.antt =====
-- The theorems about crates/core/src/persistence.rs with a codec for one snapshot.
use rind.Prelude.{ℕ, ◌≡◌, ◌⊎◌, inl, inr, refl, none, some, List, [], ◌∷◌, arith}
use rind.Text.{Text, codes, text_eq}
use rind.Error.{CoreError, ok, err}
use rind.Persistence.{
  StateSnapshot, Libraries, IsSound, Disk, Outcome, write_snapshot, load, PersistCommand, save,
  shutdown, run_writer,
}
use rind.Persistence.Saves.{loaded, last_saved, load-write_snapshot, load-run_writer}

-- The empty snapshot is one byte; nothing else is encoded.
abbrev encode : StateSnapshot → Text ⊎ List ℕ
encode [] = inr (0 ∷ [])
encode (e ∷ s) = inl (codes "too large")

abbrev tiny : Libraries
tiny = record { encode_to_vec = encode; decode_from_slice = λ bytes. inr []; hash = λ bytes. 77 }

tiny-decodes :
    (s : StateSnapshot) (bytes : List ℕ)
    → encode s ≡ inr bytes
    → tiny.decode_from_slice bytes ≡ inr s
tiny-decodes [] bytes h = refl
tiny-decodes (e ∷ s) bytes h = absurd (ground arith)

tiny-IsSound : IsSound tiny
tiny-IsSound = record { decodes = tiny-decodes; hash_u32 = λ bytes. omega arith }

abbrev old : Disk
old = record { target = some (1 ∷ []); tmp = none }

load-write_snapshot_example :
    let (result, d') = write_snapshot tiny [] (Outcome.write_failed 3 (codes "disk full")) old in
    ((load tiny d' ≡ load tiny old) × ((e : CoreError) × (result ≡ err e))) ⊎ (load tiny d' ≡ ok [])
load-write_snapshot_example =
    load-write_snapshot tiny [] old (Outcome.write_failed 3 (codes "disk full")) tiny-IsSound

abbrev commands : List PersistCommand
commands =
    save [] Outcome.done ∷ save [] (Outcome.write_failed 3 (codes "disk full")) ∷ shutdown ∷ []

load-run_writer_example :
    load tiny (run_writer tiny commands old) ≡ loaded tiny old (last_saved tiny commands none)
load-run_writer_example = load-run_writer tiny commands old tiny-IsSound
