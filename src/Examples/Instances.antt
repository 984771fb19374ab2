-- ===== src/Examples/Instances.antt =====
-- The theorems about the instances of crates/core/src/registry.rs, with numbers and texts as the
-- instances.
use rind.Prelude.{
  ℕ, suc, ◌≡◌, refl, Bool, true, false, Option, none, some, List, [], ◌∷◌, if◌then◌else◌, ◌==◌,
}
use rind.Map
use rind.Map.{Map}
use rind.Text.{Text, codes, text_eq}
use rind.Text.Split.{contains, starts_with, split_once, rsplit_once}
use rind.ScopedNames.{parse_scoped_name, scoped_parts, parts, last_part}
use rind.Error.{CoreResult, ok, err, missing_field}
use rind.Registry.{
  Item, resolve_metadata_key, named_key, find_item, find_indexed, group_items, get_in_group,
}
use rind.Registry.Instances.{
  Boxed, InstanceMap, first_instance, resolved_metadata_and_full_name, instance_name, declared_item,
  instantiate_one, as_one,
}
use rind.Registry.Instances.Once.{instantiate_one_once}
use rind.Registry.Instances.Handles.{Key, Work, is_key, has_double, singleton_handle}
use rind.Registry.Instances.Handles.Missing.{singleton_handle-missing}
use rind.Registry.Instances.Handles.Kept.{Back, keys_of, objs_of, singleton_handle-Back}
use rind.Examples.Registered.{registry, filled, seven}
use mathlib.Core.Option

data Instance : Type 0 where
  number : ℕ → Instance
  text : Text → Instance

abbrev as_number : Instance → Option ℕ
as_number (number n) = some n
as_number (text t) = none

abbrev is_number : Instance → Bool
is_number (number n) = true
is_number (text t) = false

abbrev numbers : Boxed Instance ℕ
numbers = record { upcast = number; downcast = as_number; downcast-upcast = λ t. refl }

abbrev make : Item ℕ → CoreResult ℕ
make item = ok (item.value)

declared :
    declared_item numbers
      (registry filled)
      (resolved_metadata_and_full_name numbers (registry filled) (codes "u") (codes "g:a")).0
      (codes "g:a")
    ≡ some seven
unfolding declared_item resolved_metadata_and_full_name resolve_metadata_key named_key find_item
    find_indexed group_items get_in_group parse_scoped_name scoped_parts parts last_part split_once
    rsplit_once contains starts_with Map.get Map.contains_key Option.bind
declared = refl

none_yet :
    first_instance (
      Map.get_or {V = List Instance}
        (instance_name numbers (registry filled) (codes "u") (codes "g:a"))
        []
        [])
    ≡ none
unfolding Map.get_or Map.get
none_yet = refl

abbrev made : CoreResult ℕ × InstanceMap Instance
made = instantiate_one numbers (registry filled) (codes "u") (codes "g:a") make []

instantiate_one_once_example :
    (made.0 ≡ ok 7)
    × (as_one numbers (registry filled) (codes "u") (codes "g:a") made.1 ≡ ok 7)
    × (instantiate_one numbers (registry filled) (codes "u") (codes "g:a") make made.1
        ≡ (ok 7, made.1))
    × ((other : Text)
        → Map.get other made.1 ≡ (
            if instance_name numbers (registry filled) (codes "u") (codes "g:a") == other
            then some (number 7 ∷ [])
            else Map.get other []))
instantiate_one_once_example =
    instantiate_one_once numbers (registry filled) (codes "u") (codes "g:a") make make [] seven 7
      declared refl none_yet

abbrev counter : Key Instance
counter = (codes "counter", is_number)

abbrev heap : Key Instance
heap = (codes "heap", is_number)

abbrev next : List Instance → List Instance
next [] = []
next (number n ∷ objs) = number (suc n) ∷ next objs
next (text t ∷ objs) = text t ∷ next objs

-- each number is counted up, and the call fails
abbrev count : Work Instance ℕ
count objs insts = (err (missing_field (codes "x")), next objs, insts)

abbrev only_counter : InstanceMap Instance
only_counter = (codes "counter", number 3 ∷ []) ∷ []

distinct : has_double (counter ∷ heap ∷ []) ≡ false
unfolding has_double is_key
distinct = refl

counter_there : Map.get (codes "counter") only_counter ≡ some (number 3 ∷ [])
unfolding Map.get
counter_there = refl

no_heap : Map.get (codes "heap") only_counter ≡ none
unfolding Map.get
no_heap = refl

singleton_handle-missing_example :
    ((singleton_handle (counter ∷ heap ∷ []) count only_counter).0
      ≡ err (missing_field (codes "heap")))
    × ((name : Text)
        → Map.get name (singleton_handle (counter ∷ heap ∷ []) count only_counter).1
          ≡ (if is_key name (counter ∷ []) then none else Map.get name only_counter))
singleton_handle-missing_example =
    singleton_handle-missing count (counter ∷ []) heap [] only_counter distinct
      ((number 3 ∷ [], counter_there), tt) no_heap

abbrev both : InstanceMap Instance
both = (codes "counter", number 3 ∷ []) ∷ (codes "heap", number 5 ∷ text [] ∷ []) ∷ []

abbrev asked : List (Key Instance × Instance × List Instance)
asked = (counter, number 3, []) ∷ (heap, number 5, text [] ∷ []) ∷ []

both_there :
    (Map.get (codes "counter") both ≡ some (number 3 ∷ []))
    × (Map.get (codes "heap") both ≡ some (number 5 ∷ text [] ∷ []))
unfolding Map.get
both_there = (refl, refl)

worked :
    count (objs_of asked) (Map.remove (codes "heap") (Map.remove (codes "counter") both))
    ≡ (err (missing_field (codes "x")), number 4 ∷ number 6 ∷ [], [])
unfolding Map.remove
worked = refl

not_asked : is_key (codes "other") (keys_of asked) ≡ false
unfolding is_key
not_asked = refl

singleton_handle-Back_example :
    ((singleton_handle (keys_of asked) count both).0 ≡ err (missing_field (codes "x")))
    × Back asked (number 4 ∷ number 6 ∷ []) (singleton_handle (keys_of asked) count both).1
    × (Map.get (codes "other") (singleton_handle (keys_of asked) count both).1
        ≡ Map.get (codes "other") [])
singleton_handle-Back_example =
    singleton_handle-Back count asked both (err (missing_field (codes "x")))
      (number 4 ∷ number 6 ∷ []) [] (codes "other") distinct
      (both_there.0, refl, (both_there.1, refl, tt)) worked not_asked
