-- ===== src/Flow/Index.antt =====
-- `rebuild_transcendence_index` and `rebuild_inverse_transcendence_index` of
-- crates/flow/src/flow.rs, from the declared facets with their groups.
use rind.Prelude.{
  ap, ◌≡◌, Bool, Option, none, some, List, [], ◌∷◌, map, filter_map, any, ◌==◌, ◌&&◌, ◌||◌, ==_iff,
  arith, Bool-cases, inl, inr,
}
use rind.Map
use rind.Map.{Map}
use rind.Set
use rind.Text.{Text, text_eq}
use rind.ScopedNames.{joined}
use rind.Matching.{FlowItem, simple, detailed}
use rind.Flow.{FlowFacet, config_name}

-- `format!("{group}:{}", def.name)`
abbrev pub full_name : Text × FlowFacet → Text
full_name (group, def) = joined group def.name

unfoldable pub condition_name : FlowItem → Option Text
condition_name (simple name) = some name
condition_name (detailed name impulse target branch) = name

-- the names under which the indexes have a facet
unfoldable pub stop_names : FlowFacet → List Text
unfolding config_name
stop_names def = elim def.stop_on [ none ↦ [] | some deps ↦ map config_name deps ]

unfoldable pub after_names : FlowFacet → List Text
unfolding condition_name
after_names def = elim def.after [ none ↦ [] | some after ↦ filter_map condition_name after ]

-- the loop over the names of one facet
unfoldable pub add_names : Text → List Text → Map Text (List Text) → Map Text (List Text)
add_names full [] m = m
add_names full (name ∷ names) m =
    add_names full names (Map.insert name (Set.insert full (Map.get_or name [] m)) m)

-- the loop over the facets
unfoldable pub add_facets :
    (FlowFacet → List Text) → List (Text × FlowFacet) → Map Text (List Text) → Map Text (List Text)
unfolding add_names
add_facets names [] m = m
add_facets names (item ∷ items) m =
    add_facets names items (add_names (full_name item) (names item.1) m)

unfoldable pub rebuild_inverse_transcendence_index : List (Text × FlowFacet) → Map Text (List Text)
unfolding add_facets stop_names
rebuild_inverse_transcendence_index facets = add_facets stop_names facets []

unfoldable pub rebuild_transcendence_index : List (Text × FlowFacet) → Map Text (List Text)
unfolding add_facets after_names
rebuild_transcendence_index facets = add_facets after_names facets []

-- the index has the facet under the name
abbrev pub indexed : Text → Text → Map Text (List Text) → Bool
indexed name full m = Set.contains full (Map.get_or name [] m)

module _ (name full : Text) where
  indexed-insert :
      (n f : Text) (m : Map Text (List Text))
      → indexed name full (Map.insert n (Set.insert f (Map.get_or n [] m)) m)
        ≡ (indexed name full m || (f == full && n == name))
  indexed-insert n f m =
      let value = Set.insert f (Map.get_or n [] m) in
      let at = Map.get_or-insert n name value [] m in
      elim (Bool-cases (n == name)) [
        | inl same ↦
            let n_name : n ≡ name = (==_iff n name).0 same in
            let member = Set.contains-insert f full (Map.get_or n [] m) in
            let old : Map.get_or n [] m ≡ Map.get_or name [] m =
              ap (λ (k : Text). Map.get_or k [] m) n_name in
            ground (arith, at, same, member, old)
        | inr other ↦ ground (arith, at, other)
      ]

  pub indexed-add_names :
      (f : Text) (names : List Text) (m : Map Text (List Text))
      → indexed name full (add_names f names m)
        ≡ (indexed name full m || (f == full && any (λ n. n == name) names))
  unfolding add_names
  indexed-add_names f [] m = ground arith
  indexed-add_names f (n ∷ names) m = ground (
    arith,
    indexed-insert n f m,
    indexed-add_names f names (Map.insert n (Set.insert f (Map.get_or n [] m)) m),
  )

  -- whether a declared facet of the full name names the other
  abbrev pub declared : (FlowFacet → List Text) → List (Text × FlowFacet) → Bool
  declared names items =
      any (λ item. full_name item == full && any (λ n. n == name) (names item.1)) items

  indexed-add_facets :
      (names : FlowFacet → List Text) (items : List (Text × FlowFacet)) (m : Map Text (List Text))
      → indexed name full (add_facets names items m) ≡ (indexed name full m || declared names items)
  unfolding add_facets
  indexed-add_facets names [] m = ground arith
  indexed-add_facets names (item ∷ items) m = ground (
    arith,
    indexed-add_names (full_name item) (names item.1) m,
    indexed-add_facets names items (add_names (full_name item) (names item.1) m),
  )

  -- A facet stands in the rebuilt index under a name exactly where a declaration with that full
  -- name has the name in its after conditions, and in the rebuilt inverse index exactly where it
  -- has it in its stop-on.
  pub rebuilt-declared :
      (items : List (Text × FlowFacet))
      → (indexed name full (rebuild_transcendence_index items) ≡ declared after_names items)
        × (indexed name full (rebuild_inverse_transcendence_index items)
            ≡ declared stop_names items)
  unfolding rebuild_transcendence_index rebuild_inverse_transcendence_index Set.contains Map.get_or
      Map.get
  rebuilt-declared items =
      (indexed-add_facets after_names items [], indexed-add_facets stop_names items [])
