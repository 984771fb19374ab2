-- ===== src/Registry/Found.antt =====
-- What is found by the index has the name that it is looked up by.
use rind.Prelude.{
  ℕ, suc, ◌+◌, ◌≡◌, refl, sym, ap, ◌∙◌, subst, arith, true, false, Option, none, some, List, [],
  ◌∷◌, get_elem?, All, find, find_sound, ◌==◌, ==_iff,
}
use rind.Map
use rind.Map.{Map}
use rind.Map.Entries.{AllEntries, insert-AllEntries, get-AllEntries}
use rind.Text.{Text, codes, text_eq}
use rind.Error.{CoreResult, ok, err, metadata_not_found}
use rind.ScopedNames.{parse_scoped_name, joined, compose_scoped_name}
use rind.ScopedNames.Roundtrip.{Lacks, parse_scoped_name-compose_scoped_name}
use rind.Registry.{
  Item, Metadata, MetadataRegistry, get_in_group, group_items, index_items, index_groups,
  ensure_index_for_type, lookup, find_indexed, find_item, resolve_metadata_key, named_key, or_empty,
}
use mathlib.Core.Option

-- A name without a colon and without an at sign.
abbrev pub Plain : Text → Type 0
Plain name = Lacks b':' name × Lacks b'@' name

joined_parts :
    (group name : Text)
    → Plain group
    → Plain name
    → (parse_scoped_name (joined group name)).child ≡ name
unfolding compose_scoped_name
joined_parts group name p q =
    ap (λ parsed. parsed.child)
      (parse_scoped_name-compose_scoped_name group name none p.0 q.0 p.1 q.1)

joined_group :
    (group name : Text)
    → Plain group
    → Plain name
    → (parse_scoped_name (joined group name)).parent ≡ group
unfolding compose_scoped_name
joined_group group name p q =
    ap (λ parsed. parsed.parent)
      (parse_scoped_name-compose_scoped_name group name none p.0 q.0 p.1 q.1)

module _ {ℓ} {A : Type ℓ} where
  -- The item that stands at an index in a group, under its full name.
  abbrev Stands : Metadata A → Text → ℕ → Type ℓ
  Stands m full idx =
      (group : Text) × (found : List (Item A)) × (item : Item A) × (full ≡ joined group item.name)
      × (get_in_group group m ≡ some found)
      × (get_elem? found idx ≡ some item)
      × Plain group
      × Plain item.name

  -- Each group stands once in the metadata, and the names are plain.
  abbrev pub PlainGroups : Metadata A → Metadata A → Type ℓ
  PlainGroups m [] = Unit
  PlainGroups m ((group, none) ∷ rest) = PlainGroups m rest
  PlainGroups m ((group, some found) ∷ rest) =
      (Map.get group m ≡ some (some found))
      × Plain group
      × All (λ item. Plain item.name) found
      × PlainGroups m rest

  index_items-Stands :
      (m : Metadata A) (group : Text) (found : List (Item A)) (idx : ℕ) (items : List (Item A))
      (index : Map Text ℕ)
      → get_in_group group m ≡ some found
      → ((j : ℕ) → get_elem? found (j + idx) ≡ get_elem? items j)
      → Plain group
      → All (λ item. Plain item.name) items
      → AllEntries (Stands m) index
      → AllEntries (Stands m) (index_items group idx items index)
  unfolding index_items
  index_items-Stands m group found idx [] index g e p ps h = h
  index_items-Stands m group found idx (item ∷ items) index g e p ps h =
      index_items-Stands m group found (suc idx) items _ g
        (λ j. ap (get_elem? found) (shifted j idx) ∙ e (suc j)) p ps.1
        (insert-AllEntries (Stands m) (joined group item.name) idx index
          (group, found, item, refl, g, ap (get_elem? found) (from_zero idx) ∙ e 0, p, ps.0) h)
    where
      shifted : (j idx : ℕ) → j + suc idx ≡ suc j + idx
      shifted j idx = omega arith

      from_zero : (idx : ℕ) → idx ≡ 0 + idx
      from_zero idx = omega arith

  index_groups-Stands :
      (m rest : Metadata A) (index : Map Text ℕ)
      → PlainGroups m rest
      → AllEntries (Stands m) index
      → AllEntries (Stands m) (index_groups rest index)
  unfolding index_groups get_in_group Option.bind
  index_groups-Stands m [] index ps h = h
  index_groups-Stands m ((group, none) ∷ rest) index ps h = index_groups-Stands m rest index ps h
  index_groups-Stands m ((group, some found) ∷ rest) index ps h =
      index_groups-Stands m rest _ ps.3 (
        index_items-Stands m group found 0 found index (rw ps.0 refl)
          (λ j. ap (get_elem? found) (unshifted j)) ps.1 ps.2 h)
    where
      unshifted : (j : ℕ) → j + 0 ≡ j
      unshifted j = omega arith

  -- a look-up's answer has the name
  named_found :
      (found : Option (List (Item A))) (name : Text) (item : Item A)
      → Option.bind found (find (λ i. i.name == name)) ≡ some item
      → item.name ≡ name
  unfolding Option.bind
  named_found none name item h = cc
  named_found (some items) name item h =
      (==_iff item.name name).0 (find_sound (λ i. i.name == name) items item h)

  -- the key of a metadata that is there
  resolved_key :
      (r : MetadataRegistry A) (key full : Text)
      → (key == codes "*") ≡ false
      → Map.contains_key key r.metadata ≡ true
      → resolve_metadata_key r key full ≡ key
  unfolding resolve_metadata_key named_key
  resolved_key r key full h k = rw (h, k) refl

  group_items_of :
      (r : MetadataRegistry A) (m : Metadata A) (key group : Text)
      → (key == codes "*") ≡ false
      → Map.get key r.metadata ≡ some m
      → group_items r key group ≡ get_in_group group m
  unfolding group_items Option.bind
  group_items_of r m key group h g = rw (h, g) refl

  indexed_name :
      (r : MetadataRegistry A) (m : Metadata A) (key full : Text) (idx : ℕ) (item : Item A)
      → (key == codes "*") ≡ false
      → Map.contains_key key r.metadata ≡ true
      → Map.get key r.metadata ≡ some m
      → Stands m full idx
      → find_indexed r key full (some idx) ≡ some item
      → item.name ≡ (parse_scoped_name full).child
  unfolding find_indexed Option.bind
  indexed_name r m key full idx item star there at (group, found, kept, e, g, i, p, q) h =
      let located : group_items r (resolve_metadata_key r key full) (parse_scoped_name full).parent
          ≡ some found =
        ap (λ k. group_items r k (parse_scoped_name full).parent)
          (resolved_key r key full star there)
        ∙ group_items_of r m key _ star at
        ∙ ap (λ t. get_in_group (parse_scoped_name t).parent m) e
        ∙ ap (λ t. get_in_group t m) (joined_group group kept.name p q)
        ∙ g in
      let same : kept ≡ item =
        Option.some-injective kept item
          (sym i ∙ sym (ap (λ o. Option.bind o (λ items. get_elem? items idx)) located) ∙ h) in
      ap (λ x. x.name) (sym same)
      ∙ sym (joined_parts group kept.name p q)
      ∙ ap (λ t. (parse_scoped_name t).child) (sym e)

  either_name :
      (r : MetadataRegistry A) (m : Metadata A) (key full : Text) (o : Option ℕ)
      (index : Map Text ℕ) (item : Item A)
      → (key == codes "*") ≡ false
      → Map.contains_key key r.metadata ≡ true
      → Map.get key r.metadata ≡ some m
      → AllEntries (Stands m) index
      → Map.get full index ≡ o
      → find_indexed r key full o ≡ some item
      → item.name ≡ (parse_scoped_name full).child
  unfolding find_indexed lookup
  either_name r m key full none index item star there at all e h = named_found _ _ item h
  either_name r m key full (some idx) index item star there at all e h =
      indexed_name r m key full idx item star there at (get-AllEntries (Stands m) full index all e)
        h

  abbrev or_else : MetadataRegistry A → CoreResult (MetadataRegistry A) → MetadataRegistry A
  or_else r (err e) = r
  or_else r (ok q) = q

  ensured :
      (r : MetadataRegistry A) (m : Metadata A) (key : Text)
      → Map.get key r.metadata ≡ some m
      → r.index ≡ none
      → ensure_index_for_type key r ≡ ok (record r { index = some (index_groups m []) })
  unfolding ensure_index_for_type
  ensured r m key at empty =
      ap
        (λ o. elim o as (λ x. CoreResult (MetadataRegistry A)) [
          | none ↦ err (metadata_not_found key)
          | some n ↦ ok (record r { index = some (index_groups n (or_empty r.index)) })
        ])
        at
      ∙ ap (λ o. ok (record r { index = some (index_groups m (or_empty o)) })) empty

  found_made :
      (r : MetadataRegistry A) (m : Metadata A) (key full : Text) (item : Item A)
      → (key == codes "*") ≡ false
      → Map.contains_key key r.metadata ≡ true
      → Map.get key r.metadata ≡ some m
      → PlainGroups m m
      → find_item (record r { index = some (index_groups m []) }) key full ≡ some item
      → item.name ≡ (parse_scoped_name full).child
  unfolding find_item Option.bind
  found_made r m key full item star there at plain found =
      either_name (record r { index = some (index_groups m []) }) m key full
        (Map.get full (index_groups m [])) (index_groups m []) item star there at
        (index_groups-Stands m m [] plain tt) refl found

  -- For a metadata that is there, whose groups stand once with plain names, and an index that is
  -- made for it alone: what find returns has the name that the full name ends in.
  pub find_item-ensure_index_for_type :
      (r r' : MetadataRegistry A) (m : Metadata A) (key full : Text) (item : Item A)
      → (key == codes "*") ≡ false
      → Map.contains_key key r.metadata ≡ true
      → Map.get key r.metadata ≡ some m
      → r.index ≡ none
      → PlainGroups m m
      → ensure_index_for_type key r ≡ ok r'
      → find_item r' key full ≡ some item
      → item.name ≡ (parse_scoped_name full).child
  find_item-ensure_index_for_type r r' m key full item star there at empty plain h found =
      let made : MetadataRegistry A = record r { index = some (index_groups m []) } in
      let result : made ≡ r' = ap (or_else r) (sym (ensured r m key at empty) ∙ h) in
      found_made r m key full item star there at plain
        (subst (λ q. find_item q key full ≡ some item) (sym result) found)
