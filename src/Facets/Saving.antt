-- ===== src/Facets/Saving.antt =====
-- What `save_all_scopes` of crates/flow/src/flow.rs saves of each facet, and to which file.
use rind.Prelude.{
  ℕ, ◌≡◌, Option, none, some, List, [], ◌∷◌, map, if◌then◌else◌, ◌==◌, ◌||◌, not, ==_iff, arith,
  Bool-cases, inl, inr,
}
use rind.Map
use rind.Map.{Map}
use rind.Map.Unique.{Unique, insert-Unique}
use rind.Text.{Text, text_eq}
use rind.Persistence.{StateSnapshot}
use rind.Facets.{Facets, EntryCodec, scope_from_state_name, is_impermanent, per_scope}

-- the entries of a facet in the snapshot of a scope
unfoldable pub entries_at : Text → Text → Map Text StateSnapshot → Option (List (List ℕ))
entries_at scope name m = Map.get name (Map.get_or scope [] m)

module _ (codec : EntryCodec) (scope name : Text) where
  entries_at-insert :
      (s n : Text) (entries : List (List ℕ)) (m : Map Text StateSnapshot)
      → entries_at scope name (Map.insert s (Map.insert n entries (Map.get_or s [] m)) m) ≡ (
          if s == scope
          then (if n == name then some entries else entries_at scope name m)
          else entries_at scope name m)
  unfolding entries_at
  entries_at-insert s n entries m = ground (
    arith,
    Map.get_or-insert s scope (Map.insert n entries (Map.get_or s [] m)) [] m,
    Map.get-insert n name entries (Map.get_or s [] m),
    ==_iff s scope,
  )

  -- what the facet adds to what is there
  abbrev saved_of : Facets → Option (List (List ℕ)) → Option (List (List ℕ))
  saved_of facets before =
      if is_impermanent name || not (scope_from_state_name name == scope)
      then before
      else elim (Map.get name facets) [
        | none ↦ before
        | some branches ↦ some (map codec.encode branches)
      ]

  pub entries_at-per_scope :
      (facets : Facets) (m : Map Text StateSnapshot)
      → Unique facets
      → entries_at scope name (per_scope codec facets m) ≡ saved_of facets (entries_at scope name m)
  unfolding per_scope Map.get
  entries_at-per_scope [] m h = ground arith
  entries_at-per_scope ((n, branches) ∷ facets) m h =
      let s = scope_from_state_name n in
      let added = Map.insert s (Map.insert n (map codec.encode branches) (Map.get_or s [] m)) m in
      elim (Bool-cases (is_impermanent n)) [
        | inl passed ↦ ground (arith, passed, entries_at-per_scope facets m h.1, h.0, ==_iff n name)
        | inr kept ↦ ground (
          arith,
          kept,
          entries_at-per_scope facets added h.1,
          entries_at-insert s n (map codec.encode branches) m,
          h.0,
          ==_iff n name,
        )
      ]

-- The snapshots of all scopes have one entry for each name.
abbrev pub SnapshotsUnique : Map Text StateSnapshot → Type 0
SnapshotsUnique m = (s : Text) → Unique (Map.get_or s [] m)

insert-SnapshotsUnique :
    (s n : Text) (entries : List (List ℕ)) (m : Map Text StateSnapshot)
    → SnapshotsUnique m
    → SnapshotsUnique (Map.insert s (Map.insert n entries (Map.get_or s [] m)) m)
insert-SnapshotsUnique s n entries m h t =
    let added = Map.insert n entries (Map.get_or s [] m) in
    let unique : Unique added = insert-Unique n entries (Map.get_or s [] m) (h s) in
    rw (Map.get_or-insert s t added [] m)
      (elim (Bool-cases (s == t)) [ inl same ↦ rw same unique | inr other ↦ rw other (h t) ])

module _ (codec : EntryCodec) where
  pub per_scope-Unique :
      (facets : Facets) (m : Map Text StateSnapshot) → Unique m → Unique (per_scope codec facets m)
  unfolding per_scope
  per_scope-Unique [] m h = h
  per_scope-Unique ((n, branches) ∷ facets) m h =
      per_scope-Unique facets _ (elim (Bool-cases (is_impermanent n)) [
        | inl passed ↦ rw passed h
        | inr kept ↦ rw kept (insert-Unique (scope_from_state_name n) _ m h)
      ])

  pub per_scope-SnapshotsUnique :
      (facets : Facets) (m : Map Text StateSnapshot)
      → SnapshotsUnique m
      → SnapshotsUnique (per_scope codec facets m)
  unfolding per_scope
  per_scope-SnapshotsUnique [] m h = h
  per_scope-SnapshotsUnique ((n, branches) ∷ facets) m h =
      per_scope-SnapshotsUnique facets _ (elim (Bool-cases (is_impermanent n)) [
        | inl passed ↦ rw passed h
        | inr kept ↦
            rw kept
              (insert-SnapshotsUnique (scope_from_state_name n) n (map codec.encode branches) m h)
      ])
