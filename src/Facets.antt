-- ===== src/Facets.antt =====
-- `FacetGraph` of crates/flow/src/flow.rs: the facets with their branches, and the files of their
-- scopes. The encoder of a branch is a parameter; a file is found by its scope, so that the handles
-- which the graph keeps of the files have no model.
pub mod Scopes
pub mod Saving
pub mod Restored
use rind.Prelude.{
  ℕ, ◌⊎◌, Bool, true, false, not, Option, none, some, List, [], ◌∷◌, ◌++◌, map, if◌then◌else◌, ◌==◌,
  ◌&&◌, ◌||◌, is_empty, filter,
}
use rind.Map
use rind.Map.{Map}
use rind.Text.{Text, codes, text_eq}
use rind.Text.Split.{contains, ends_with, rsplit_once}
use rind.Error.{CoreResult, ok, err}
use rind.Payload.{FlowPayload}
use rind.Matching.{FlowInstance, FlowType}
use rind.Persistence.{StateSnapshot, Libraries, Disk, Outcome, write_snapshot}
use rind.Persistence

abbrev pub Facets : Type 0
Facets = Map Text (List FlowInstance)

-- `encode_to_vec` and `decode_from_slice` of an instance; an encoding that fails is empty.
pub record EntryCodec : Type 0 where
  pub encode : FlowInstance → List ℕ
  pub decode : List ℕ → Option FlowInstance

-- `FlowInstance::from` of an entry
unfoldable pub from_entry : EntryCodec → List ℕ → FlowInstance
from_entry codec entry = elim (codec.decode entry) [
  | none ↦ record { name = []; payload = FlowPayload.none false; type = FlowType.facet }
  | some instance_ ↦ instance_
]

-- the branches of a loaded facet
unfoldable pub from_entries : EntryCodec → List (List ℕ) → List FlowInstance
unfolding from_entry
from_entries codec entries =
    filter (λ (x : FlowInstance). not (is_empty x.name)) (map (from_entry codec) entries)

unfoldable pub scope_from_state_name : Text → Text
scope_from_state_name name = elim (rsplit_once b'@' name) [ none ↦ codes "static" | some p ↦ p.1 ]

-- the test of the names that are not saved
unfoldable pub is_impermanent : Text → Bool
is_impermanent name = contains (codes "!@") name || ends_with (codes "!") name

unfoldable pub snapshot_for_persistence : EntryCodec → Facets → StateSnapshot
snapshot_for_persistence codec [] = []
snapshot_for_persistence codec ((name, states) ∷ facets) =
    let rest = snapshot_for_persistence codec facets in
    if is_impermanent name then rest else (name, map codec.encode states) ∷ rest

-- the facets that `drop_scope` retains
unfoldable pub retained : Text → Facets → Facets
retained scope facets =
    Map.retain
      (λ k v.
        (scope == codes "static" && not (contains (codes "@") k))
        || not (ends_with (b'@' ∷ scope) k))
      facets

-- the loop of `save_all_scopes` that gathers the snapshots
unfoldable pub per_scope : EntryCodec → Facets → Map Text StateSnapshot → Map Text StateSnapshot
per_scope codec [] acc = acc
per_scope codec ((name, branches) ∷ facets) acc =
    let scope = scope_from_state_name name in
    let added =
      Map.insert scope (Map.insert name (map codec.encode branches) (Map.get_or scope [] acc))
        acc in
    per_scope codec facets (if is_impermanent name then acc else added)

-- `entry(scope).or_default()`
unfoldable pub or_default : Text → Map Text StateSnapshot → Map Text StateSnapshot
or_default scope m = elim (Map.get scope m) [ none ↦ Map.insert scope [] m | some s ↦ m ]

-- The files by their scopes.
abbrev pub Files : Type 0
Files = Map Text Disk

-- `drop_scope`; whether the directory of the scope can be removed is given
unfoldable pub drop_scope : Text → Bool → Facets → Files → Facets × Files
unfolding retained
drop_scope scope removable facets files = (
  retained scope facets,
  (if scope == codes "static" || not removable then files else Map.remove scope files),
)

unfoldable pub file_of : Text → Files → Disk
file_of scope files = Map.get_or scope (record { target = none; tmp = none }) files

-- the loop of `save_all_scopes` that saves the snapshots; how far each save comes is given
unfoldable pub save_scopes :
    Libraries → (Text → Outcome) → Map Text StateSnapshot → Files → CoreResult (Unit {0}) × Files
unfolding file_of
save_scopes l outcomes [] files = (ok tt, files)
save_scopes l outcomes ((scope, snapshot) ∷ rest) files =
    let saved = write_snapshot l snapshot (outcomes scope) (file_of scope files) in
    let files' = Map.insert scope saved.1 files in
    let others = save_scopes l outcomes rest files' in
    elim saved.0 [ err e ↦ (err e, files') | ok u ↦ others ]

unfoldable pub save_all_scopes :
    Libraries → EntryCodec → (Text → Outcome) → Facets → Files → CoreResult (Unit {0}) × Files
unfolding per_scope or_default save_scopes
save_all_scopes l codec outcomes facets files =
    save_scopes l outcomes (or_default (codes "static") (per_scope codec facets [])) files

-- the facets of a loaded snapshot, put into the graph
unfoldable pub insert_loaded : EntryCodec → StateSnapshot → Facets → Facets
unfolding from_entries
insert_loaded codec [] facets = facets
insert_loaded codec ((name, entries) ∷ snapshot) facets =
    insert_loaded codec snapshot (Map.insert name (from_entries codec entries) facets)

unfoldable pub load_scope_from_persistence :
    Libraries → EntryCodec → Text → Files → Facets → CoreResult Facets
unfolding insert_loaded file_of
load_scope_from_persistence l codec scope files facets =
    elim (Persistence.load l (file_of scope files)) [
      | err e ↦ err e
      | ok snapshot ↦ ok (insert_loaded codec snapshot facets)
    ]

-- the loop over the directories of the scopes, which passes over what cannot be loaded
unfoldable pub load_scopes : Libraries → EntryCodec → List Text → Files → Facets → Facets
unfolding load_scope_from_persistence
load_scopes l codec [] files facets = facets
load_scopes l codec (scope ∷ scopes) files facets =
    let loaded : Facets = elim (load_scope_from_persistence l codec scope files facets) [
      | err e ↦ facets
      | ok next ↦ next
    ] in
    load_scopes l codec scopes files (if scope == codes "static" then facets else loaded)

unfoldable pub load_from_persistence :
    Libraries → EntryCodec → List Text → Files → CoreResult Facets
unfolding load_scopes
load_from_persistence l codec scopes files =
    elim (load_scope_from_persistence l codec (codes "static") files []) [
      | err e ↦ err e
      | ok facets ↦ ok (load_scopes l codec scopes files facets)
    ]
