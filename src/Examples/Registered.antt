-- ===== src/Examples/Registered.antt =====
-- The theorems about crates/core/src/registry.rs and the trigger index of
-- crates/services/src/services.rs at one declaration.
use rind.Prelude.{ℕ, List, ◌≡◌, refl, true, false, Option, none, some, [], ◌∷◌}
use rind.Map
use rind.Map.{Map}
use rind.Set
use rind.Text.{Text, codes, text_eq}
use rind.Text.Split.{split_once, rsplit_once}
use rind.ScopedNames.{parse_scoped_name, scoped_parts, parts, last_part}
use rind.Matching.{FlowItem}
use rind.Flow.Index.{add_names}
use rind.Error.{ok}
use rind.Registry.{
  Item, Metadata, MetadataRegistry, ensure_index_for_type, index_groups, index_items, find_item,
  find_indexed, group_items, resolve_metadata_key, named_key, get_in_group,
}
use rind.Registry.Found.{PlainGroups, find_item-ensure_index_for_type}
use rind.Services.Triggering.{
  Declared, rebuild_trigger_index, add_services, interests, item_names, item_name,
}
use mathlib.Core.Option

abbrev pub waiting : Declared
waiting = record {
  scope = codes "s";
  group = codes "g";
  name = codes "a";
  start_on = some (FlowItem.simple (codes "f") ∷ []);
  stop_on = none;
  after = none;
  branching = none;
  is_wait = false;
}

abbrev pub indexed_once : Map Text (List Text)
indexed_once = (codes "f", codes "g:a@s" ∷ []) ∷ []

pub rebuilt : rebuild_trigger_index (waiting ∷ []) ≡ some indexed_once
unfolding rebuild_trigger_index add_services interests item_names item_name add_names Map.insert
    Map.get_or Map.get Set.insert Set.contains Option.bind
rebuilt = refl

abbrev pub seven : Item ℕ
seven = record { name = codes "a"; value = 7 }

abbrev group_a : Metadata ℕ
group_a = (codes "g", some (seven ∷ [])) ∷ []

abbrev pub registry : Option (Map Text ℕ) → MetadataRegistry ℕ
registry index = record { metadata = (codes "u", group_a) ∷ []; index = index }

abbrev pub filled : Option (Map Text ℕ)
filled = some ((codes "g:a", 0) ∷ [])

there : Map.contains_key (codes "u") (registry none).metadata ≡ true
unfolding Map.contains_key
there = refl

stored : Map.get (codes "u") (registry none).metadata ≡ some group_a
unfolding Map.get
stored = refl

plain_names : PlainGroups group_a group_a
unfolding Map.get Set.contains
plain_names = (refl, (refl, refl), ((refl, refl), tt), tt)

ensured : ensure_index_for_type (codes "u") (registry none) ≡ ok (registry filled)
unfolding ensure_index_for_type index_groups index_items Map.get Map.insert
ensured = refl

found : find_item (registry filled) (codes "u") (codes "g:a") ≡ some seven
unfolding find_item find_indexed group_items resolve_metadata_key named_key get_in_group Map.get
    Map.contains_key parse_scoped_name scoped_parts parts last_part split_once rsplit_once
    Option.bind
found = refl

find_item-ensure_index_for_type_example : seven.name ≡ (parse_scoped_name (codes "g:a")).child
find_item-ensure_index_for_type_example =
    find_item-ensure_index_for_type (registry none) (registry filled) group_a (codes "u")
      (codes "g:a") seven refl there stored refl plain_names ensured found
