-- ===== src/Persistence/Saves.antt =====
-- What a save of crates/core/src/persistence.rs leaves to be loaded.
use rind.Prelude.{
  ℕ, ◌≡◌, ◌⊎◌, inl, inr, refl, ◌∙◌, Bool, true, false, ◌&&◌, if◌then◌else◌, Option, none, some,
  List, [], ◌∷◌, nat_beq, arith,
}
use rind.Bytes.{u32_from_le-u32_to_le}
use rind.Error.{CoreError, CoreResult, ok, err}
use rind.Persistence.{
  StateSnapshot, Libraries, IsSound, framed, encode_snapshot, decode_payload, decode_snapshot, Disk,
  Outcome, write_bytes, write_snapshot, load, PersistCommand, save, shutdown, run_writer,
}

nat_beq_self : (n : ℕ) → nat_beq n n ≡ true
nat_beq_self n = ground arith

decode_payload_sound :
    (l : Libraries) (s : StateSnapshot) (payload : List ℕ)
    → IsSound l
    → l.encode_to_vec s ≡ inr payload
    → decode_payload l (l.hash payload) payload ≡ ok s
unfolding decode_payload
decode_payload_sound l s payload sound e =
    rw (nat_beq_self (l.hash payload), sound.decodes s payload e, decode_payload)

decode_snapshot-framed :
    (l : Libraries) (s : StateSnapshot) (payload : List ℕ)
    → IsSound l
    → l.encode_to_vec s ≡ inr payload
    → decode_snapshot l (framed l payload) ≡ ok s
unfolding decode_snapshot
decode_snapshot-framed l s payload sound e =
    rw (u32_from_le-u32_to_le (l.hash payload) (sound.hash_u32 payload))
      (decode_payload_sound l s payload sound e)

sum_cases : {A B : Type 0} (r : A ⊎ B) → ((a : A) × (r ≡ inl a)) ⊎ ((b : B) × (r ≡ inr b))
sum_cases (inl a) = inl (a, refl)
sum_cases (inr b) = inr (b, refl)

-- With a decoder that reads back what was encoded and a checksum of 32 bits, an encoded snapshot
-- decodes to itself.
decode_snapshot-encode_snapshot :
    (l : Libraries) (s : StateSnapshot) {bytes : List ℕ}
    → IsSound l
    → encode_snapshot l s ≡ ok bytes
    → decode_snapshot l bytes ≡ ok s
unfolding encode_snapshot
decode_snapshot-encode_snapshot l s {bytes} sound e = elim (sum_cases (l.encode_to_vec s)) [
  | inl (why, failed) ↦ absurd (ground arith)
  | inr (payload, encoded) ↦
      let same : bytes ≡ framed l payload = ground arith in
      rw same (decode_snapshot-framed l s payload sound encoded)
]

module _ (l : Libraries) (s : StateSnapshot) (d : Disk) where
  -- the save has not touched the file, or has replaced it and may have succeeded
  Replaces : List ℕ → CoreResult (Unit {0}) × Disk → Type 0
  Replaces bytes r =
      ((r.1.target ≡ d.target) × ((e : CoreError) × (r.0 ≡ err e))) ⊎ (r.1.target ≡ some bytes)

  write_bytes-Replaces :
      (bytes : List ℕ) (outcome : Outcome) → Replaces bytes (write_bytes bytes outcome d)
  unfolding Replaces write_bytes
  write_bytes-Replaces bytes (Outcome.create_dir_failed e) = inl (refl, (_, refl))
  write_bytes-Replaces bytes (Outcome.create_failed e) = inl (refl, (_, refl))
  write_bytes-Replaces bytes (Outcome.write_failed n e) = inl (refl, (_, refl))
  write_bytes-Replaces bytes (Outcome.sync_failed e) = inl (refl, (_, refl))
  write_bytes-Replaces bytes (Outcome.rename_failed e) = inl (refl, (_, refl))
  write_bytes-Replaces bytes (Outcome.open_parent_failed e) = inr refl
  write_bytes-Replaces bytes (Outcome.sync_parent_failed e) = inr refl
  write_bytes-Replaces bytes Outcome.done = inr refl

  load_target : (d' : Disk) → d'.target ≡ d.target → load l d' ≡ load l d
  unfolding load
  load_target d' same = rw (same, load) refl

  load_replaced :
      (d' : Disk) (bytes : List ℕ) → d'.target ≡ some bytes → load l d' ≡ decode_snapshot l bytes
  unfolding load
  load_replaced d' bytes same = rw (same, load) refl

  -- With a decoder that reads back what was encoded and a checksum of 32 bits: however far a save
  -- comes, what is then loaded is either what was loaded before, and the save has failed, or the
  -- saved snapshot.
  pub load-write_snapshot :
      (outcome : Outcome)
      → IsSound l
      → let (result, d') = write_snapshot l s outcome d in
        ((load l d' ≡ load l d) × ((e : CoreError) × (result ≡ err e))) ⊎ (load l d' ≡ ok s)
  unfolding write_snapshot encode_snapshot Replaces
  load-write_snapshot outcome sound = elim (sum_cases (l.encode_to_vec s)) [
    | inl (why, failed) ↦ rw (failed, write_snapshot, encode_snapshot) (inl (refl, (_, refl)))
    | inr (payload, encoded) ↦
        let bytes = framed l payload in
        rw (encoded, write_snapshot, encode_snapshot)
          (elim (write_bytes-Replaces bytes outcome) [
            | inl (same, failure) ↦ inl (load_target _ same, failure)
            | inr replaced ↦
                inr (
                  load_replaced _ bytes replaced ∙ decode_snapshot-framed l s payload sound encoded)
          ])
  ]

-- The failures of a save that come after the file has been replaced, and its success.
abbrev pub lands : Outcome → Bool
lands (Outcome.open_parent_failed e) = true
lands (Outcome.sync_parent_failed e) = true
lands Outcome.done = true
lands outcome = false

-- A snapshot that can be encoded.
abbrev pub is_encoded : Libraries → StateSnapshot → Bool
is_encoded l s = elim (l.encode_to_vec s) [ inl why ↦ false | inr payload ↦ true ]

-- The specification: the snapshot of the last save before a shutdown that is encoded and lands, or
-- else the one found before.
abbrev pub last_saved :
    Libraries → List PersistCommand → Option StateSnapshot → Option StateSnapshot
last_saved l [] found = found
last_saved l (shutdown ∷ commands) found = found
last_saved l (save s outcome ∷ commands) found =
    last_saved l commands (if is_encoded l s && lands outcome then some s else found)

-- what is loaded where this snapshot was saved last, or none was since the disk was as given
abbrev pub loaded : Libraries → Disk → Option StateSnapshot → CoreResult StateSnapshot
loaded l d none = load l d
loaded l d (some s) = ok s

module _ (l : Libraries) (sound : IsSound l) (start : Disk) where
  write_bytes-loaded :
      (s : StateSnapshot) (payload : List ℕ) (d : Disk) (outcome : Outcome)
      (found : Option StateSnapshot)
      → l.encode_to_vec s ≡ inr payload
      → load l d ≡ loaded l start found
      → load l (write_bytes (framed l payload) outcome d).1
        ≡ loaded l start (if lands outcome then some s else found)
  unfolding write_bytes
  write_bytes-loaded s payload d (Outcome.create_dir_failed e) found encoded h = h
  write_bytes-loaded s payload d (Outcome.create_failed e) found encoded h =
      load_target l s d _ refl ∙ h
  write_bytes-loaded s payload d (Outcome.write_failed n e) found encoded h =
      load_target l s d _ refl ∙ h
  write_bytes-loaded s payload d (Outcome.sync_failed e) found encoded h =
      load_target l s d _ refl ∙ h
  write_bytes-loaded s payload d (Outcome.rename_failed e) found encoded h =
      load_target l s d _ refl ∙ h
  write_bytes-loaded s payload d (Outcome.open_parent_failed e) found encoded h =
      load_replaced l s d _ _ refl ∙ decode_snapshot-framed l s payload sound encoded
  write_bytes-loaded s payload d (Outcome.sync_parent_failed e) found encoded h =
      load_replaced l s d _ _ refl ∙ decode_snapshot-framed l s payload sound encoded
  write_bytes-loaded s payload d Outcome.done found encoded h =
      load_replaced l s d _ _ refl ∙ decode_snapshot-framed l s payload sound encoded

  write_snapshot-loaded :
      (s : StateSnapshot) (d : Disk) (outcome : Outcome) (found : Option StateSnapshot)
      → load l d ≡ loaded l start found
      → load l (write_snapshot l s outcome d).1
        ≡ loaded l start (if is_encoded l s && lands outcome then some s else found)
  unfolding write_snapshot encode_snapshot
  write_snapshot-loaded s d outcome found h = elim (sum_cases (l.encode_to_vec s)) [
    | inl (why, failed) ↦ rw (is_encoded, failed, write_snapshot, encode_snapshot) h
    | inr (payload, encoded) ↦
        rw (is_encoded, encoded, write_snapshot, encode_snapshot)
          (write_bytes-loaded s payload d outcome found encoded h)
  ]

  run_writer-loaded :
      (commands : List PersistCommand) (d : Disk) (found : Option StateSnapshot)
      → load l d ≡ loaded l start found
      → load l (run_writer l commands d) ≡ loaded l start (last_saved l commands found)
  unfolding run_writer
  run_writer-loaded [] d found h = h
  run_writer-loaded (shutdown ∷ commands) d found h = h
  run_writer-loaded (save s outcome ∷ commands) d found h =
      run_writer-loaded commands (write_snapshot l s outcome d).1 _
        (write_snapshot-loaded s d outcome found h)

-- With a decoder that reads back what was encoded and a checksum of 32 bits: whatever commands the
-- writer thread takes, what is then loaded is the snapshot of the last save before a shutdown that
-- can be encoded and does not fail before the file is replaced, and, where there is no such save,
-- what was loaded before.
pub load-run_writer :
    (l : Libraries) (commands : List PersistCommand) (d : Disk)
    → IsSound l
    → load l (run_writer l commands d) ≡ loaded l d (last_saved l commands none)
load-run_writer l commands d sound = run_writer-loaded l sound d commands d none refl
