-- ===== src/Services/Triggering/Evaluate.antt =====
-- `evaluate_triggers` of crates/services/src/services.rs as a whole: the trigger index, the two
-- singletons that are taken out of the instances, and the loop over the services. What is to be
-- started is handed to `start`, one after the other.
use rind.Prelude.{
  ℕ, Bool, true, false, Option, none, some, List, [], ◌∷◌, map, is_empty, if◌then◌else◌,
}
use rind.Map.{Map}
use rind.Text.{Text, codes, text_eq}
use rind.Error.{CoreResult, ok, err, type_mismatch}
use rind.Payload.{JsonCodec}
use rind.Facets.{Facets}
use rind.Variables.{Toml}
use rind.Registry.{Item, MetadataRegistry}
use rind.Registry
use rind.Registry.Instances.{Boxed, InstanceMap}
use rind.Registry.Instances.Handles.{Key, Work, singleton_handle}
use rind.Services.{Service, ServiceRuntime, Effect}
use rind.Services.Branching.{TomlReader, Heap}
use rind.Services.Triggering.{Declared, rebuild_trigger_index}
use rind.Services.Triggering.Targets.{
  EmitTrigger, emit_event, target_keys, Start, Meta, evaluate_targets,
}
use mathlib.Core.Option

abbrev pub Evaluated : Type 0
Evaluated = CoreResult (List Start) × ServiceRuntime × List Effect

-- `rebuild_trigger_index`, where the index is empty
unfoldable pub ensure_trigger_index :
    List Declared → Map Text (List Text) → Option (Map Text (List Text))
unfolding rebuild_trigger_index
ensure_trigger_index ds index = if is_empty index then rebuild_trigger_index ds else some index

abbrev pub or_static : Option Text → Text
or_static none = codes "static"
or_static (some scope) = scope

module _ (codec : JsonCodec) (toml : Toml) (reader : TomlReader toml) {Obj : Type 0}
    (services : Boxed Obj Service) (graphs : Boxed Obj Facets) (heaps : Boxed Obj (Heap toml))
    (r : MetadataRegistry Meta) (now : ℕ) (notifies : Bool) where
  abbrev is_some : {A : Type 0} → Option A → Bool
  is_some none = false
  is_some (some a) = true

  abbrev pub graph_key : Key Obj
  graph_key = (codes "runtime:facet_graph", λ obj. is_some (graphs.downcast obj))

  abbrev pub heap_key : Key Obj
  heap_key = (codes "runtime:variable_heap", λ obj. is_some (heaps.downcast obj))

  -- the items of the scope, with their groups
  abbrev pub grouped_names : Text → Option (List (Text × Text))
  grouped_names scope = Option.map (map (λ p. (p.0, p.1.name))) (Registry.items r scope)

  -- the work on the two singletons, which it does not change
  unfoldable pub evaluate_with : EmitTrigger → List Text → ServiceRuntime → Work Obj Evaluated
  unfolding evaluate_targets emit_event
  evaluate_with trigger names rt (graph ∷ heap ∷ objs) insts = elim (graphs.downcast graph) [
    | none ↦ (err type_mismatch, graph ∷ heap ∷ objs, insts)
    | some facets ↦ elim (heaps.downcast heap) [
      | none ↦ (err type_mismatch, graph ∷ heap ∷ objs, insts)
      | some vh ↦
          let result =
            evaluate_targets codec toml reader services r now notifies trigger.reverts
              (emit_event trigger) facets vh names insts rt in
          (ok (result.0, result.2, result.3), graph ∷ heap ∷ objs, result.1)
    ]
  ]
  evaluate_with trigger names rt objs insts = (err type_mismatch, objs, insts)

  -- The index that is left, and what became of the services: `none` is a panic of the index.
  unfoldable pub evaluate_triggers :
      List Declared
      → EmitTrigger
      → Option Text
      → Map Text (List Text)
      → InstanceMap Obj
      → ServiceRuntime
      → Option (Map Text (List Text) × CoreResult Evaluated × InstanceMap Obj)
  unfolding ensure_trigger_index target_keys evaluate_with
  evaluate_triggers ds trigger scope index insts rt =
      Option.map
        (λ filled.
          let names =
            target_keys filled trigger.name (or_static scope) (grouped_names (or_static scope)) in
          let handled =
            singleton_handle (graph_key ∷ heap_key ∷ []) (evaluate_with trigger names rt) insts in
          (filled, handled.0, handled.1))
        (ensure_trigger_index ds index)
