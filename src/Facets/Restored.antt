-- ===== src/Facets/Restored.antt =====
-- What crates/flow/src/flow.rs loads of the facets that it has saved.
use rind.Prelude.{
  subst, ap, ◌∙◌, ◌≡◌, refl, false, Option, none, some, List, [], ◌∷◌, map, if◌then◌else◌, ◌==◌,
  ==_iff, ==_refl, arith, Option-cases, Bool-cases, inl, inr, is_empty, All,
}
use rind.Map
use rind.Map.{Map}
use rind.Map.Unique.{Unique, insert-Unique}
use rind.Facets.Saving.{
  entries_at, entries_at-per_scope, per_scope-Unique, per_scope-SnapshotsUnique,
}
use rind.Text.{Text, codes, text_eq}
use rind.Error.{ok, CoreResult-cases}
use rind.Matching.{FlowInstance}
use rind.Persistence as Persistence
use rind.Persistence.{StateSnapshot, Libraries, IsSound, Disk, Outcome, write_snapshot}
use rind.Persistence.Saves.{load-write_snapshot}
use rind.Facets.{
  Facets, Files, EntryCodec, from_entry, from_entries, scope_from_state_name, is_impermanent,
  per_scope, or_default, file_of, save_scopes, save_all_scopes, insert_loaded,
  load_scope_from_persistence,
}

file_of-insert :
    (s t : Text) (d : Disk) (files : Files)
    → file_of t (Map.insert s d files) ≡ (if s == t then d else file_of t files)
unfolding file_of Map.get_or
file_of-insert s t d files = ground (arith, Map.get-insert s t d files)

module _ (l : Libraries) (outcomes : Text → Outcome) where
  save_scopes-ok :
      (s : Text) (snapshot : StateSnapshot) (rest : Map Text StateSnapshot) (files : Files)
      → (save_scopes l outcomes ((s, snapshot) ∷ rest) files).0 ≡ ok tt
      → let saved = write_snapshot l snapshot (outcomes s) (file_of s files) in
        (saved.0 ≡ ok tt)
        × (save_scopes l outcomes ((s, snapshot) ∷ rest) files
            ≡ save_scopes l outcomes rest (Map.insert s saved.1 files))
  unfolding save_scopes
  save_scopes-ok s snapshot rest files h =
      let saved = write_snapshot l snapshot (outcomes s) (file_of s files) in
      elim (CoreResult-cases saved.0) [
        | inl (e, failed) ↦ absurd (ground arith)
        | inr (u, done) ↦ (done, rw (done, save_scopes) refl)
      ]

  save_scopes_others :
      (scope : Text) (m : Map Text StateSnapshot) (files : Files)
      → Map.get scope m ≡ none
      → (save_scopes l outcomes m files).0 ≡ ok tt
      → file_of scope (save_scopes l outcomes m files).1 ≡ file_of scope files
  unfolding Map.get save_scopes
  save_scopes_others scope [] files h e = refl
  save_scopes_others scope ((s, snapshot) ∷ rest) files h e =
      let saved = write_snapshot l snapshot (outcomes s) (file_of s files) in
      let files' = Map.insert s saved.1 files in
      let (done, same) = save_scopes-ok s snapshot rest files e in
      let kept = save_scopes_others scope rest files' (ground arith) (ground arith) in
      ground (arith, kept, file_of-insert s scope saved.1 files)

  write_snapshot-load :
      (s : Text) (snapshot : StateSnapshot) (d : Disk)
      → IsSound l
      → (write_snapshot l snapshot (outcomes s) d).0 ≡ ok tt
      → Persistence.load l (write_snapshot l snapshot (outcomes s) d).1 ≡ ok snapshot
  write_snapshot-load s snapshot d sound done =
      elim (load-write_snapshot l snapshot d (outcomes s) sound) [
        | inl (same, (e, failed)) ↦ absurd (ground (arith, done, failed))
        | inr loaded ↦ loaded
      ]

  -- Each snapshot is in the file of its scope.
  save_scopes-load :
      (scope : Text) (kept : StateSnapshot) (m : Map Text StateSnapshot) (files : Files)
      → IsSound l
      → Unique m
      → Map.get scope m ≡ some kept
      → (save_scopes l outcomes m files).0 ≡ ok tt
      → Persistence.load l (file_of scope (save_scopes l outcomes m files).1) ≡ ok kept
  unfolding Map.get
  save_scopes-load scope kept [] files sound h found e = cc
  save_scopes-load scope kept ((s, snapshot) ∷ rest) files sound h found e =
      let saved = write_snapshot l snapshot (outcomes s) (file_of s files) in
      let files' = Map.insert s saved.1 files in
      let (done, same) = save_scopes-ok s snapshot rest files e in
      elim (Bool-cases (s == scope)) [
        | inl here ↦
            let s_scope : s ≡ scope = (==_iff s scope).0 here in
            let kept_is : snapshot ≡ kept = ground arith in
            let absent : Map.get scope rest ≡ none =
              subst (λ (t : Text). Map.get t rest ≡ none) s_scope h.0 in
            let left = save_scopes_others scope rest files' absent (ground arith) in
            let at : file_of scope files' ≡ saved.1 =
              ground (arith, file_of-insert s scope saved.1 files, here) in
            let loaded = write_snapshot-load s snapshot (file_of s files) sound done in
            rw (same, left, at) (loaded ∙ ap ok kept_is)
        | inr there ↦
            rw same
              (save_scopes-load scope kept rest files' sound h.1 (ground arith) (ground arith))
      ]

insert_loaded-get :
    (codec : EntryCodec) (name : Text) (snapshot : StateSnapshot) (facets : Facets)
    → Unique snapshot
    → Map.get name (insert_loaded codec snapshot facets) ≡ elim (Map.get name snapshot) [
      | none ↦ Map.get name facets
      | some entries ↦ some (from_entries codec entries)
    ]
unfolding insert_loaded Map.get
insert_loaded-get codec name [] facets h = refl
insert_loaded-get codec name ((n, entries) ∷ snapshot) facets h = ground (
  arith,
  insert_loaded-get codec name snapshot (Map.insert n (from_entries codec entries) facets) h.1,
  Map.get-insert n name (from_entries codec entries) facets,
  ==_iff n name,
  h.0,
)

-- The decoder gives back the branch that was encoded, which has a name.
abbrev pub Decodes : EntryCodec → FlowInstance → Type 0
Decodes codec x = (codec.decode (codec.encode x) ≡ some x) × (is_empty x.name ≡ false)

from_entries_self :
    (codec : EntryCodec) (branches : List FlowInstance)
    → All (Decodes codec) branches
    → from_entries codec (map codec.encode branches) ≡ branches
unfolding from_entries from_entry
from_entries_self codec [] h = refl
from_entries_self codec (x ∷ xs) h = ground (arith, h.0.0, h.0.1, from_entries_self codec xs h.1)

or_default-Unique : (k : Text) (m : Map Text StateSnapshot) → Unique m → Unique (or_default k m)
unfolding or_default
or_default-Unique k m h =
    elim (Map.get k m)
      as (λ (o : Option StateSnapshot).
        Unique (elim o as (λ (p : Option StateSnapshot). Map Text StateSnapshot) [
          | none ↦ Map.insert k [] m
          | some s ↦ m
        ])) [ none ↦ insert-Unique k [] m h | some s ↦ h ]

or_default-get :
    (k s : Text) (m : Map Text StateSnapshot) {x : StateSnapshot}
    → Map.get s m ≡ some x
    → Map.get s (or_default k m) ≡ some x
unfolding or_default
or_default-get k s m h = ground (arith, Map.get-insert k s [] m, ==_iff k s)

module _ (l : Libraries) (codec : EntryCodec) (outcomes : Text → Outcome) where
  scopes_of : Facets → Map Text StateSnapshot
  scopes_of facets = or_default (codes "static") (per_scope codec facets [])

  scopes_of-Unique : (facets : Facets) → Unique (scopes_of facets)
  unfolding scopes_of
  scopes_of-Unique facets =
      or_default-Unique (codes "static") (per_scope codec facets [])
        (per_scope-Unique codec facets [] tt)

  -- the scope's snapshot, which has the facet and no name twice
  snapshot_of :
      (facets : Facets) (name : Text) (branches : List FlowInstance)
      → Unique facets
      → is_impermanent name ≡ false
      → Map.get name facets ≡ some branches
      → (snapshot : StateSnapshot) × (Map.get (scope_from_state_name name) (scopes_of facets)
          ≡ some snapshot)
        × (Map.get name snapshot ≡ some (map codec.encode branches))
        × Unique snapshot
  unfolding scopes_of entries_at Map.get_or
  snapshot_of facets name branches h saved found =
      let scope = scope_from_state_name name in
      let m = per_scope codec facets [] in
      let at : entries_at scope name m ≡ some (map codec.encode branches) =
        ground
          (arith, entries_at-per_scope codec scope name facets [] h, saved, found, ==_refl scope) in
      elim (Option-cases (Map.get scope m)) [
        | inl missing ↦ absurd (ground (arith, at, missing))
        | inr (snapshot, there) ↦
            let is : Map.get_or scope [] m ≡ snapshot = Map.get-get_or scope [] m snapshot there in
            (
              snapshot,
              or_default-get (codes "static") scope m there,
              ground (arith, at, is),
              subst (λ (x : StateSnapshot). Unique x) is
                  (per_scope-SnapshotsUnique codec facets [] (λ t. tt) scope),
            )
      ]

  -- With sound codecs, after a successful save_all_scopes, loading the file of the scope of a
  -- facet that is saved gives the facet back with the branches it had, for any failures of the
  -- files that this success allows.
  pub load_scope-save_all_scopes :
      (facets : Facets) (files : Files) (name : Text) (branches : List FlowInstance)
      → IsSound l
      → Unique facets
      → All (Decodes codec) branches
      → is_impermanent name ≡ false
      → Map.get name facets ≡ some branches
      → (save_all_scopes l codec outcomes facets files).0 ≡ ok tt
      → (loaded : Facets) × (load_scope_from_persistence l codec
            (scope_from_state_name name)
            (save_all_scopes l codec outcomes facets files).1
            []
          ≡ ok loaded)
        × (Map.get name loaded ≡ some branches)
  unfolding save_all_scopes scopes_of load_scope_from_persistence
  load_scope-save_all_scopes facets files name branches sound h decodes saved found e =
      let (snapshot, there, has, unique) = snapshot_of facets name branches h saved found in
      let loads =
        save_scopes-load l outcomes (scope_from_state_name name) snapshot (scopes_of facets) files
          sound (scopes_of-Unique facets) there e in
      let got = insert_loaded-get codec name snapshot [] unique in
      (
        insert_loaded codec snapshot [],
        rw (loads, load_scope_from_persistence) refl,
        ground (arith, got, has, from_entries_self codec branches decodes),
      )
