-- ===== src/Registry.antt =====
-- `MetadataRegistry` of crates/core/src/registry.rs for the declarations of one type, with their
-- groups and the index by name. A group that has none of the type has no list.
pub mod Found
pub mod Instances
use rind.Prelude.{
  ℕ, suc, Bool, true, false, Option, none, some, List, [], ◌∷◌, ◌++◌, map, find, get_elem?,
  if◌then◌else◌, ◌==◌,
}
use rind.Map
use rind.Map.{Map}
use rind.Text.{Text, codes, text_eq}
use rind.ScopedNames.{ScopedName, parse_scoped_name, joined}
use rind.Error.{CoreError, CoreResult, ok, err, metadata_not_found}
use mathlib.Core.Option

pub record Item {ℓ} (A : Type ℓ) : Type ℓ where
  pub name : Text
  pub value : A

-- `Metadata`: the items of the type in each group
abbrev pub Metadata {ℓ} : Type ℓ → Type ℓ
Metadata A = Map Text (Option (List (Item A)))

pub record MetadataRegistry {ℓ} (A : Type ℓ) : Type ℓ where
  pub metadata : Map Text (Metadata A)
  -- the entry of `indexes` for the type
  pub index : Option (Map Text ℕ)

abbrev first_key {ℓ} : {A : Type ℓ} → Text → Map Text A → Text
first_key other [] = other
first_key other ((k, v) ∷ m) = k

abbrev pub or_empty : Option (Map Text ℕ) → Map Text ℕ
or_empty none = []
or_empty (some index) = index

module _ {ℓ} {A : Type ℓ} where
  unfoldable pub get_in_group : Text → Metadata A → Option (List (Item A))
  get_in_group group m = Option.bind (Map.get group m) (λ items. items)

  -- the key where the name is not `*` or nothing stands for it
  unfoldable pub named_key : MetadataRegistry A → Text → Text → Text
  named_key r metadata full_name =
      if Map.contains_key metadata r.metadata
      then metadata
      else if Map.contains_key (parse_scoped_name full_name).scope r.metadata
      then (parse_scoped_name full_name).scope
      else metadata

  unfoldable pub resolve_metadata_key : MetadataRegistry A → Text → Text → Text
  unfolding named_key
  resolve_metadata_key r metadata full_name =
      if metadata == codes "*"
      then if Map.contains_key (parse_scoped_name full_name).scope r.metadata
        then (parse_scoped_name full_name).scope
        else if Map.contains_key (codes "units") r.metadata
        then codes "units"
        else if Map.contains_key (codes "static") r.metadata
        then codes "static"
        else first_key (named_key r metadata full_name) r.metadata
      else named_key r metadata full_name

  unfoldable pub insert_metadata : Text → Metadata A → MetadataRegistry A → MetadataRegistry A
  insert_metadata name m r = record r { metadata = Map.insert name m r.metadata }

  -- the items of a group in every metadata
  unfoldable pub everywhere : Text → Map Text (Metadata A) → List (Item A)
  unfolding get_in_group
  everywhere group [] = []
  everywhere group ((k, m) ∷ ms) =
      elim (get_in_group group m) [ none ↦ [] | some items ↦ items ] ++ everywhere group ms

  unfoldable pub group_items : MetadataRegistry A → Text → Text → Option (List (Item A))
  unfolding everywhere get_in_group
  group_items r metadata group =
      if metadata == codes "*"
      then some (everywhere group r.metadata)
      else Option.bind (Map.get metadata r.metadata) (get_in_group group)

  unfoldable pub has_group : MetadataRegistry A → Text → Text → Bool
  has_group r metadata group = elim (Map.get metadata r.metadata) [
    | none ↦ false
    | some m ↦ Map.contains_key group m
  ]

  -- the items of a metadata with their groups
  unfoldable pub grouped : Metadata A → List (Text × Item A)
  grouped [] = []
  grouped ((group, none) ∷ m) = grouped m
  grouped ((group, some found) ∷ m) = map (λ item. (group, item)) found ++ grouped m

  unfoldable pub all_grouped : Map Text (Metadata A) → List (Text × Item A)
  unfolding grouped
  all_grouped [] = []
  all_grouped ((k, m) ∷ ms) = grouped m ++ all_grouped ms

  unfoldable pub items : MetadataRegistry A → Text → Option (List (Text × Item A))
  unfolding grouped all_grouped
  items r metadata =
      if metadata == codes "*"
      then some (all_grouped r.metadata)
      else Option.map grouped (Map.get metadata r.metadata)

  unfoldable pub all_items : Map Text (Metadata A) → Map Text (List (Text × Item A))
  unfolding grouped
  all_items [] = []
  all_items ((k, m) ∷ ms) = (k, grouped m) ∷ all_items ms

  -- the loop of `ensure_index_for_type` over the items of a group, from their number on
  unfoldable pub index_items : Text → ℕ → List (Item A) → Map Text ℕ → Map Text ℕ
  index_items group idx [] index = index
  index_items group idx (item ∷ items) index =
      index_items group (suc idx) items (Map.insert (joined group item.name) idx index)

  unfoldable pub index_groups : Metadata A → Map Text ℕ → Map Text ℕ
  unfolding index_items
  index_groups [] index = index
  index_groups ((group, none) ∷ m) index = index_groups m index
  index_groups ((group, some found) ∷ m) index = index_groups m (index_items group 0 found index)

  unfoldable pub ensure_index_for_type : Text → MetadataRegistry A → CoreResult (MetadataRegistry A)
  unfolding index_groups
  ensure_index_for_type metadata r = elim (Map.get metadata r.metadata) [
    | none ↦ err (metadata_not_found metadata)
    | some m ↦ ok (record r { index = some (index_groups m (or_empty r.index)) })
  ]

  unfoldable pub lookup : MetadataRegistry A → Text → Text → Option (Item A)
  unfolding resolve_metadata_key group_items
  lookup r metadata full_name =
      let parsed = parse_scoped_name full_name in
      Option.bind (group_items r (resolve_metadata_key r metadata full_name) parsed.parent)
        (find (λ item. item.name == parsed.child))

  -- `find`, where there is an index for the type
  unfoldable pub find_indexed : MetadataRegistry A → Text → Text → Option ℕ → Option (Item A)
  unfolding lookup
  find_indexed r metadata full_name none =
      lookup r (resolve_metadata_key r metadata full_name) full_name
  find_indexed r metadata full_name (some idx) =
      Option.bind
        (group_items r (resolve_metadata_key r metadata full_name)
          (parse_scoped_name full_name).parent)
        (λ found. get_elem? found idx)

  unfoldable pub find_item : MetadataRegistry A → Text → Text → Option (Item A)
  unfolding find_indexed
  find_item r metadata full_name =
      Option.bind r.index (λ index. find_indexed r metadata full_name (Map.get full_name index))

  unfoldable pub lookup_in_groups : MetadataRegistry A → Text → Text → Metadata A → Option (Item A)
  unfolding lookup
  lookup_in_groups r metadata item_name [] = none
  lookup_in_groups r metadata item_name ((group, found) ∷ m) =
      elim (lookup r metadata (joined group item_name)) [
        | some item ↦ some item
        | none ↦ lookup_in_groups r metadata item_name m
      ]

  unfoldable pub lookup_in_any_group : MetadataRegistry A → Text → Text → Option (Item A)
  unfolding lookup_in_groups
  lookup_in_any_group r metadata item_name =
      Option.bind (Map.get metadata r.metadata) (lookup_in_groups r metadata item_name)

  -- the indexes are cleared, which leaves none for the type
  unfoldable pub remove_metadata : Text → MetadataRegistry A → Bool × MetadataRegistry A
  remove_metadata metadata r =
      if Map.contains_key metadata r.metadata
      then (true, record r { metadata = Map.remove metadata r.metadata; index = none })
      else (false, r)
