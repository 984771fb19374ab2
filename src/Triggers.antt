-- ===== src/Triggers.antt =====
-- The keys and payloads of crates/flow/src/triggers.rs. A value of serde_json is a parameter, of
-- which the code asks whether it is an object; an object is the list of its entries in the order in
-- which it is iterated.
pub mod Branches
use rind.Prelude.{Bool, true, false, Option, none, some, List, [], ◌∷◌, if◌then◌else◌, ◌==◌, ◌||◌}
use rind.Map
use rind.Map.{Map}
use rind.Text.{Text, codes, text_eq}
use rind.Text.Split.{split_once, trim, strip_prefix}
use rind.ScopedNames.{scope_free}

-- `rslvns!(snorm path)`, what stands before the first at sign
unfoldable pub same_flow_name : Text → Text → Bool
unfolding scope_free
same_flow_name a b = a == b || scope_free a == scope_free b

unfoldable pub branch_target_key : Text → Text
branch_target_key spec = elim (split_once b':' spec) [ none ↦ spec | some p ↦ trim p.0 ]

unfoldable pub branch_source_key : Text → Text
branch_source_key spec = elim (split_once b':' spec) [ none ↦ spec | some p ↦ trim p.1 ]

module _ {V : Type 0} where
  -- `json_branch_key` of an object; `to_string` is the values' printer
  unfoldable pub json_branch_key : (V → Text) → Map Text V → List Text → Option (List Text)
  json_branch_key to_string obj [] = some []
  json_branch_key to_string obj (k ∷ keys) = elim (Map.get k obj) [
    | none ↦ none
    | some v ↦ elim (json_branch_key to_string obj keys) [
      | none ↦ none
      | some rest ↦ some (to_string v ∷ rest)
    ]
  ]

  -- `merge_json` of two objects: a key with an ampersand is stripped of it, and the next such plain
  -- key is passed over.
  unfoldable pub merge_entries : Text → Map Text V → Map Text V → Map Text V
  merge_entries forced a [] = a
  merge_entries forced a ((k, v) ∷ b) =
      if forced == k then merge_entries forced a b else elim (strip_prefix (codes "&") k) [
        | none ↦ merge_entries forced (Map.insert k v a) b
        | some x ↦ merge_entries x (Map.insert x v a) b
      ]

  unfoldable pub merge_json : Map Text V → Map Text V → Map Text V
  unfolding merge_entries
  merge_json a b = merge_entries [] a b

  -- the loop of `map_json_payload` over the specs, from the object mapped before
  unfoldable pub map_specs : Map Text V → List Text → Map Text V → Option (Map Text V)
  unfolding branch_source_key branch_target_key
  map_specs source [] mapped = some mapped
  map_specs source (spec ∷ specs) mapped = elim (Map.get (branch_source_key spec) source) [
    | none ↦ none
    | some value ↦ map_specs source specs (Map.insert (branch_target_key spec) value mapped)
  ]

  -- `map_json_payload` of an object; the payload is printed by the caller
  unfoldable pub map_json_payload : List Text → Map Text V → Option (Map Text V)
  unfolding map_specs
  map_json_payload specs source = map_specs source specs []
