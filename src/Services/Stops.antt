-- ===== src/Services/Stops.antt =====
-- The actions `stop`, `stop_all` and `stop_for_scope` of crates/services/src/services.rs, on the
-- instances of the registry. Each takes the facet graph out of the instances while it works.
pub mod Left
use rind.Prelude.{
  ℕ, Bool, true, false, Option, none, some, List, [], ◌∷◌, ◌++◌, map, filter, if◌then◌else◌,
}
use rind.Map
use rind.Map.{Map}
use rind.Text.{Text, codes, text_eq}
use rind.Text.Split.{contains}
use rind.ScopedNames.{joined}
use rind.Error.{CoreResult, ok, err}
use rind.Facets.{Facets}
use rind.Registry.{Item, MetadataRegistry}
use rind.Registry
use rind.Registry.Instances.{Boxed, InstanceMap, instance_name, instantiate_one, as_one}
use rind.Registry.Instances.Handles.{Key, Work, singleton_handle}
use rind.Services.{
  ServiceMetadata, Service, ServiceRuntime, StopMode, graceful, force_kill, Effect, new,
}
use rind.Services.Stopping.{stop_service}
use rind.Services.Triggering.{or_nil}

-- what becomes of the instances, of the runtime and of the system
abbrev pub Outcome : Type 0 → Type 0
Outcome Obj = CoreResult (Unit {0}) × InstanceMap Obj × ServiceRuntime × List Effect

-- the first and the last instance of a key is replaced
abbrev pub set_first_instance : {A : Type 0} → A → List A → List A
set_first_instance new [] = []
set_first_instance new (x ∷ xs) = new ∷ xs

abbrev pub set_last_instance : {A : Type 0} → A → List A → List A
set_last_instance new [] = []
set_last_instance new (x ∷ []) = new ∷ []
set_last_instance new (x ∷ y ∷ xs) = x ∷ set_last_instance new (y ∷ xs)

abbrev pub mode_of : Bool → StopMode
mode_of true = force_kill
mode_of false = graceful

abbrev make : Item ServiceMetadata → CoreResult Service
make item = ok (new item.value)

module _ {Obj : Type 0} (services : Boxed Obj Service) (r : MetadataRegistry ServiceMetadata)
    (now : ℕ) (notifies : Bool) where
  unfoldable pub stop_named :
      Bool → Text → Option ℕ → Option Text → InstanceMap Obj → ServiceRuntime → Outcome Obj
  stop_named force name index only_user insts rt =
      let found = instantiate_one services r (codes "*") name make insts in
      let key = instance_name services r (codes "*") name in
      elim found.0 [
        | err e ↦ (err e, found.1, rt, [])
        | ok s ↦
            let stopped =
              stop_service now (mode_of force) none only_user index (some name) notifies s rt in
            (
              ok tt,
              Map.insert key
                  (set_first_instance (services.upcast stopped.0) (Map.get_or key [] found.1))
                  found.1,
              stopped.1,
              stopped.2,
            )
      ]

  -- the services among the instances of a key
  unfoldable pub stop_objs :
      Bool → Text → List Obj → ServiceRuntime → List Obj × ServiceRuntime × List Effect
  stop_objs force key [] rt = ([], rt, [])
  stop_objs force key (obj ∷ objs) rt = elim (services.downcast obj) [
    | none ↦ let rest = stop_objs force key objs rt in (obj ∷ rest.0, rest.1, rest.2)
    | some s ↦
        let stopped = stop_service now (mode_of force) none none none (some key) notifies s rt in
        let rest = stop_objs force key objs stopped.1 in
        (services.upcast stopped.0 ∷ rest.0, rest.1, stopped.2 ++ rest.2)
  ]

  unfoldable pub stop_keys : Bool → List Text → InstanceMap Obj → ServiceRuntime → Outcome Obj
  unfolding stop_objs
  stop_keys force [] insts rt = (ok tt, insts, rt, [])
  stop_keys force (key ∷ keys) insts rt = elim (Map.get key insts) [
    | none ↦ stop_keys force keys insts rt
    | some objs ↦
        let stopped = stop_objs force key objs rt in
        let rest = stop_keys force keys (Map.insert key stopped.0 insts) stopped.1 in
        (rest.0, rest.1, rest.2, stopped.2 ++ rest.3)
  ]

  unfoldable pub stop_every : Bool → InstanceMap Obj → ServiceRuntime → Outcome Obj
  unfolding stop_keys
  stop_every force insts rt =
      stop_keys force (filter (contains (codes "@")) (map (λ e. e.0) insts)) insts rt

  -- a declared service of the scope, which has to have an instance
  unfoldable pub stop_declared : Text → Text → InstanceMap Obj → ServiceRuntime → Outcome Obj
  stop_declared scope name insts rt =
      let key = instance_name services r scope name in
      elim (as_one services r scope name insts) [
        | err e ↦ (err e, insts, rt, [])
        | ok s ↦
            let stopped = stop_service now force_kill none none none (some name) notifies s rt in
            (
              ok tt,
              Map.insert key
                  (set_last_instance (services.upcast stopped.0) (Map.get_or key [] insts)) insts,
              stopped.1,
              stopped.2,
            )
      ]

  -- the loop, which an error ends
  unfoldable pub stop_items : Text → List Text → InstanceMap Obj → ServiceRuntime → Outcome Obj
  unfolding stop_declared
  stop_items scope [] insts rt = (ok tt, insts, rt, [])
  stop_items scope (name ∷ names) insts rt =
      let first = stop_declared scope name insts rt in
      let rest = stop_items scope names first.1 first.2 in
      elim first.0 [
        | err e ↦ (err e, first.1, first.2, first.3)
        | ok u ↦ (rest.0, rest.1, rest.2, first.3 ++ rest.3)
      ]

  -- the full names of the declared services of the scope
  unfoldable pub items_of : Text → List Text
  items_of scope = map (λ i. joined i.0 i.1.name) (or_nil (Registry.items r scope))

  module _ (graphs : Boxed Obj Facets) where
    abbrev is_some : {A : Type 0} → Option A → Bool
    is_some none = false
    is_some (some a) = true

    abbrev pub graph_key : Key Obj
    graph_key = (codes "runtime:facet_graph", λ obj. is_some (graphs.downcast obj))

    abbrev pub Answer : Type 0
    Answer = CoreResult (Unit {0}) × ServiceRuntime × List Effect

    -- the work beside the graph, which it does not change
    abbrev pub beside : (InstanceMap Obj → Outcome Obj) → Work Obj Answer
    beside f objs insts = let done = f insts in (ok (done.0, done.2, done.3), objs, done.1)

    abbrev pub with_graph :
        (InstanceMap Obj → Outcome Obj) → InstanceMap Obj → CoreResult Answer × InstanceMap Obj
    with_graph f insts = singleton_handle (graph_key ∷ []) (beside f) insts

    unfoldable pub stop :
        Text
        → Bool
        → Option ℕ
        → Option Text
        → InstanceMap Obj
        → ServiceRuntime
        → CoreResult Answer × InstanceMap Obj
    unfolding stop_named
    stop name force index only_user insts rt =
        with_graph (λ left. stop_named force name index only_user left rt) insts

    unfoldable pub stop_all :
        Bool → InstanceMap Obj → ServiceRuntime → CoreResult Answer × InstanceMap Obj
    unfolding stop_every
    stop_all force insts rt = with_graph (λ left. stop_every force left rt) insts

    unfoldable pub stop_for_scope :
        Text → InstanceMap Obj → ServiceRuntime → CoreResult Answer × InstanceMap Obj
    unfolding stop_items items_of
    stop_for_scope scope insts rt =
        with_graph (λ left. stop_items scope (items_of scope) left rt) insts
