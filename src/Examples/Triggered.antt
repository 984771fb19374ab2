-- ===== src/Examples/Triggered.antt =====
-- The theorems about `evaluate_triggers` of crates/services/src/services.rs at one service.
use rind.Prelude.{◌≡◌, ◌⊎◌, refl, ◌||◌, true, false, All, Option, none, some, List, [], ◌∷◌}
use rind.Map
use rind.Set
use rind.Text.{codes, text_eq}
use rind.Text.Split.{contains, starts_with, ends_with, split_once, rsplit_once}
use rind.ScopedNames.{parse_scoped_name, scoped_parts, parts, last_part}
use rind.Triggers.{same_flow_name}
use rind.Error.{ok}
use rind.Payload.{FlowPayload}
use rind.Matching.{FlowInstance, FlowType, check_condition, payload_compatible}
use rind.Flow.Impulses.{condition_matches, condition_is_active}
use rind.Registry.{
  Item, MetadataRegistry, resolve_metadata_key, named_key, find_item, find_indexed, group_items,
  get_in_group, lookup,
}
use rind.Registry.Instances.{
  Boxed, InstanceMap, instantiate_one, instantiate, instantiate_in, declared_item,
  resolved_metadata_and_full_name, scoped,
}
use rind.Services.{Service, always, new, graceful}
use rind.Services.Instances.{is_running}
use rind.Services.Stopping.{ensure_scoped_name, stop_service}
use rind.Services.Branching.{TomlReader, Heap}
use rind.Services.Triggering.{runs, starts_now, should_start, all_active}
use rind.Services.Triggering.Targets.{
  Meta, Start, Outcome, target_keys, target_item, evaluate_target, evaluate_targets, evaluate_found,
  evaluate_instances, finish_target, start_target, starts_of, scope_and_base,
}
use rind.Services.Triggering.Index.{waits, target_keys-waits}
use rind.Services.Triggering.Starts.{IsStart, evaluate_targets-IsStart}
use rind.Services.Triggering.Ends.{Ends}
use rind.Services.Triggering.Running.{Leaves, evaluate_target-running}
use rind.Examples.Values.{ids}
use rind.Examples.Facets.{texts}
use rind.Examples.Services.{described, blank, service}
use rind.Examples.Registered.{waiting, indexed_once, rebuilt}
use mathlib.Core.Option

no_suffix : ends_with (codes "@static") (codes "f") ≡ false
unfolding ends_with starts_with
no_suffix = refl

target_keys-waits_example :
    (Set.contains (codes "g:a@s") (target_keys indexed_once (some (codes "f")) (codes "s") none) ≡ (
      waits (codes "f") (codes "g:a@s") (waiting ∷ [])
      || waits (codes "f@static") (codes "g:a@s") (waiting ∷ [])))
    × (Set.contains
          (codes "g:a@s")
          (target_keys indexed_once (some (codes "f@static")) (codes "s") none)
        ≡ (waits (codes "f") (codes "g:a@s") (waiting ∷ [])
            || waits (codes "f@static") (codes "g:a@s") (waiting ∷ [])))
target_keys-waits_example =
    target_keys-waits (waiting ∷ []) indexed_once (codes "f") (codes "g:a@s") (codes "s") none
      rebuilt no_suffix

abbrev pub plain : Boxed Service Service
plain = record { upcast = λ s. s; downcast = some; downcast-upcast = λ s. refl }

abbrev reader : TomlReader texts
reader = record { as_array = λ v. none; to_value = λ v. none }

abbrev heap : Heap texts
heap = record {
  heap = record { values = []; defaults = []; env_mappings = []; path = [] };
  env = λ name. none;
}

abbrev item : Item Meta
item = record { name = codes "a"; value = (waiting, described (always true)) }

abbrev declarations : MetadataRegistry Meta
declarations = record {
  metadata = (codes "s", (codes "g", some (item ∷ [])) ∷ []) ∷ [];
  index = some [];
}

abbrev event : Option FlowInstance
event =
    some (record { name = codes "f"; payload = FlowPayload.none false; type = FlowType.impulse })

item_found : target_item plain declarations (codes "g:a@s") ≡ some item
unfolding target_item find_item find_indexed lookup group_items resolve_metadata_key named_key
    get_in_group Map.get Map.contains_key parse_scoped_name scoped_parts parts last_part split_once
    rsplit_once Option.bind
item_found = refl

scoped_name : ensure_scoped_name (codes "g:a@s") ≡ codes "g:a@s"
unfolding ensure_scoped_name contains starts_with
scoped_name = refl

abbrev running_insts : InstanceMap Service
running_insts = (codes "g:a@s", service (always true) ∷ []) ∷ []

running_there :
    Map.get (ensure_scoped_name (codes "g:a@s")) running_insts ≡ some (service (always true) ∷ [])
unfolding Map.get ensure_scoped_name contains starts_with
running_there = refl

runs_now : runs (service (always true)).instances ≡ true
unfolding is_running
runs_now = refl

abbrev outcome : Outcome Service
outcome =
    evaluate_target ids texts reader plain declarations 1 false false event [] heap (codes "g:a@s")
      running_insts blank

evaluate_target-running_example :
    let key = ensure_scoped_name (codes "g:a@s") in
    (Ends ids [] false event waiting.stop_on waiting.start_on
      × Leaves ids texts reader plain declarations 1 false false event [] heap key running_insts
          outcome
          (stop_service 1 graceful none none none (some key) false (service (always true)) blank))
    ⊎ ((¬ Ends ids [] false event waiting.stop_on waiting.start_on)
        × Leaves ids texts reader plain declarations 1 false false event [] heap key running_insts
            outcome
            (service (always true), blank, []))
evaluate_target-running_example =
    evaluate_target-running ids texts reader plain declarations 1 false false event [] heap
      (codes "g:a@s") item (service (always true)) running_insts blank item_found refl running_there
      runs_now

abbrev started : List Start
started = (codes "g:a@s", none) ∷ []

starts_a :
    (evaluate_targets ids texts reader plain declarations 1 false false event [] heap
      (codes "g:a@s" ∷ [])
      []
      blank).0
    ≡ ok started
unfolding evaluate_targets evaluate_target evaluate_found evaluate_instances finish_target
    start_target starts_of scope_and_base starts_now should_start all_active target_item find_item
    find_indexed lookup group_items resolve_metadata_key named_key get_in_group instantiate_one
    instantiate instantiate_in declared_item resolved_metadata_and_full_name scoped Map.get
    Map.get_or Map.insert Map.contains_key parse_scoped_name scoped_parts parts last_part split_once
    rsplit_once Option.bind condition_matches condition_is_active check_condition same_flow_name
    payload_compatible new ensure_scoped_name contains starts_with
starts_a = refl

evaluate_targets-IsStart_example :
    All (IsStart ids texts reader event [] heap plain declarations (codes "g:a@s" ∷ [])) started
evaluate_targets-IsStart_example =
    evaluate_targets-IsStart ids texts reader event [] heap plain declarations 1 false false
      (codes "g:a@s" ∷ []) [] blank started starts_a
