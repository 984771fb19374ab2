-- ===== src/Services/Triggering/Targets.antt =====
-- `evaluate_triggers` of crates/services/src/services.rs: the services that a trigger concerns, and
-- what each of them is stopped and started for. A hash set is a list in an order that is not
-- specified; a service's metadata is its declaration, from which its instances are made.
use rind.Prelude.{
  ℕ, zero, suc, ◌-◌, Bool, true, false, not, ◌&&◌, Option, none, some, List, [], ◌∷◌, ◌++◌, map,
  length, take, if◌then◌else◌, ◌==◌,
}
use rind.Map
use rind.Map.{Map}
use rind.Set
use rind.Text.{Text, codes, text_eq}
use rind.Text.Split.{split_once, rsplit_once, ends_with}
use rind.ScopedNames.{joined}
use rind.Error.{CoreResult, ok, err, ◌>>=◌}
use rind.Payload.{JsonCodec, FlowPayload}
use rind.Matching.{FlowInstance, FlowType, is_facet}
use rind.Facets.{Facets}
use rind.Variables.{Toml}
use rind.Registry.{Item, MetadataRegistry, find_item}
use rind.Registry.Instances.{Boxed, InstanceMap, instantiate_one, as_one}
use rind.Services.{
  ChildInstance, BranchingConfig, ServiceMetadata, Service, ServiceRuntime, ServiceBranchContext,
  Effect, new,
}
use rind.Services.Stopping.{ensure_scoped_name}
use rind.Services.Branching.{
  TomlReader, Heap, branch_key_from_payload, check_branch_match, branches_to_start,
}
use mathlib.Core.Option
use rind.Services.Triggering.{Declared, or_nil, runs, starts_now, evaluate_stop}

-- `trim_end_matches`, on fuel: a text that is not empty is taken off the end as often as it is there
unfoldable pub trim_ends : ℕ → Text → Text → Text
trim_ends zero suffix s = s
trim_ends (suc n) suffix s =
    let rest = trim_ends n suffix (take (length s - length suffix) s) in
    if ends_with suffix s then rest else s

unfoldable pub trim_end_matches : Text → Text → Text
unfolding trim_ends
trim_end_matches suffix s = trim_ends (length s) suffix s

-- the name of the event without its scope "static", or with it
unfoldable pub static_alias : Text → Text
unfolding trim_end_matches
static_alias name =
    if ends_with (codes "@static") name
    then trim_end_matches (codes "@static") name
    else name ++ codes "@static"

-- `extend`, and `collect` into a set
unfoldable pub add_all : List Text → List Text → List Text
add_all [] out = out
add_all (x ∷ xs) out = add_all xs (Set.insert x out)

-- the keys of the services that wait for the event
unfoldable pub waiting_keys : Map Text (List Text) → Text → List Text
unfolding static_alias add_all
waiting_keys index name =
    add_all (Map.get_or (static_alias name) [] index) (add_all (Map.get_or name [] index) [])

-- those, or all services of the scope with their groups, where the trigger has no name
unfoldable pub target_keys :
    Map Text (List Text) → Option Text → Text → Option (List (Text × Text)) → List Text
unfolding waiting_keys
target_keys index (some name) scope items = waiting_keys index name
target_keys index none scope items =
    add_all (map (λ i. joined i.0 i.1 ++ b'@' ∷ scope) (or_nil items)) []

-- the fields of `EmitTrigger` that are read, with whether the action is `Revert`
pub record EmitTrigger : Type 0 where
  pub name : Option Text
  pub flow_type : Option FlowType
  pub payload : Option FlowPayload
  pub reverts : Bool

unfoldable pub emit_event : EmitTrigger → Option FlowInstance
emit_event trigger = Option.bind trigger.name (λ name. Option.bind trigger.flow_type (λ flow_type.
    Option.map (λ payload. record { name = name; payload = payload; type = flow_type })
      trigger.payload))

-- a service to start, and the branch of it
abbrev pub Start : Type 0
Start = Text × Option ServiceBranchContext

-- what the triggers read of a service's metadata, and the rest of it
abbrev pub Meta : Type 0
Meta = Declared × ServiceMetadata

abbrev make : Item Meta → CoreResult Service
make item = ok (new item.value.1)

-- the scope of a service's name and the name before it, for `instantiate_one`
unfoldable pub scope_and_base : Text → Text × Text
scope_and_base name = elim (rsplit_once b'@' name) [
  | none ↦ (codes "static", name)
  | some p ↦ (p.1, p.0)
]

module _ (event : Option FlowInstance) (facets : Facets) where
  -- the branches of the source facet, and an impulse of the name
  unfoldable pub branches_of : BranchingConfig → List FlowInstance
  branches_of branching = Map.get_or branching.source [] facets ++ elim event [
    | none ↦ []
    | some e ↦ if not (is_facet e.type) && e.name == branching.source then e ∷ [] else []
  ]

  module _ (codec : JsonCodec) (toml : Toml) (reader : TomlReader toml) (vh : Heap toml) where
    unfoldable pub starts_of : Text → Declared → List ChildInstance → List Start
    unfolding branches_of
    starts_of name d insts = elim d.branching [
      | none ↦ (name, none) ∷ []
      | some branching ↦
          map (λ context. (name, some context))
            (branches_to_start (λ payload. branch_key_from_payload codec payload branching.key)
              (check_branch_match codec toml reader (some vh) facets) branching insts 0
              (branches_of branching))
    ]

abbrev pub Outcome : Type 0 → Type 0
Outcome Obj = CoreResult (List Start) × InstanceMap Obj × ServiceRuntime × List Effect

module _ {Obj : Type 0} (services : Boxed Obj Service) (r : MetadataRegistry Meta) where
  -- the `instances` of the service that `as_one` gives
  abbrev pub instances_of : InstanceMap Obj → Text → Option (List ChildInstance)
  instances_of insts name = elim (as_one services r (codes "*") name insts) [
    | err e ↦ none
    | ok s ↦ some s.instances
  ]

  -- the declaration, of a name with a colon
  unfoldable pub target_item : Text → Option (Item Meta)
  target_item name =
      Option.bind (find_item r (codes "*") name)
        (λ item. Option.map (λ p. item) (split_once b':' name))

module _ {Obj : Type 0} where
  -- the instances under a key that is there are replaced
  abbrev pub store : Text → List Obj → InstanceMap Obj → InstanceMap Obj
  store key objs insts = if Map.contains_key key insts then Map.insert key objs insts else insts

module _ (codec : JsonCodec) (toml : Toml) (reader : TomlReader toml) {Obj : Type 0}
    (services : Boxed Obj Service) (r : MetadataRegistry Meta) (now : ℕ) (notifies reverts : Bool)
    (event : Option FlowInstance) (facets : Facets) (vh : Heap toml) where
  -- the instances under the key of the service; what is no service stays as it is
  unfoldable pub evaluate_instances :
      Text
      → Declared
      → List Obj
      → Bool
      → ServiceRuntime
      → List Obj × Bool × ServiceRuntime × List Effect
  unfolding evaluate_stop
  evaluate_instances key d [] is_running rt = ([], is_running, rt, [])
  evaluate_instances key d (obj ∷ objs) is_running rt = elim (services.downcast obj) [
    | none ↦
        let rest = evaluate_instances key d objs is_running rt in
        (obj ∷ rest.0, rest.1, rest.2, rest.3)
    | some s ↦
        let first = evaluate_stop codec facets now notifies reverts event key d s rt in
        let rest = evaluate_instances key d objs (runs s.instances) first.1 in
        (services.upcast first.0 ∷ rest.0, rest.1, rest.2, first.2 ++ rest.3)
  ]

  unfoldable pub start_target :
      Text → Declared → InstanceMap Obj → CoreResult (List Start) × InstanceMap Obj
  unfolding scope_and_base starts_of
  start_target name d insts =
      let found =
        instantiate_one services r (scope_and_base name).0 (scope_and_base name).1 make insts in
      (
        found.0 >>= (λ s. ok (starts_of event facets codec toml reader vh name d s.instances)),
        found.1,
      )

  -- where the guards let the service through, the instance and what is to be started of it
  unfoldable pub finish_target :
      Bool → Text → Declared → InstanceMap Obj → ServiceRuntime → List Effect → Outcome Obj
  unfolding start_target
  finish_target false name d insts rt effects = (ok [], insts, rt, effects)
  finish_target true name d insts rt effects =
      let started = start_target name d insts in (started.0, started.1, rt, effects)

  unfoldable pub evaluate_found : Text → Declared → InstanceMap Obj → ServiceRuntime → Outcome Obj
  unfolding evaluate_instances finish_target
  evaluate_found name d insts rt =
      let key = ensure_scoped_name name in
      let stopped = evaluate_instances key d (Map.get_or key [] insts) false rt in
      let left = store key stopped.0 insts in
      finish_target (starts_now codec facets (instances_of services r left) event d stopped.1) name
        d left stopped.2 stopped.3

  unfoldable pub evaluate_target : Text → InstanceMap Obj → ServiceRuntime → Outcome Obj
  unfolding target_item evaluate_found
  evaluate_target name insts rt = elim (target_item services r name) [
    | none ↦ (ok [], insts, rt, [])
    | some item ↦ evaluate_found name item.value.0 insts rt
  ]

  -- the loop, which an error ends
  unfoldable pub evaluate_targets : List Text → InstanceMap Obj → ServiceRuntime → Outcome Obj
  unfolding evaluate_target
  evaluate_targets [] insts rt = (ok [], insts, rt, [])
  evaluate_targets (name ∷ names) insts rt =
      let first = evaluate_target name insts rt in
      let rest = evaluate_targets names first.1 first.2 in
      elim first.0 [
        | err e ↦ (err e, first.1, first.2, first.3)
        | ok starts ↦ (rest.0 >>= (λ more. ok (starts ++ more)), rest.1, rest.2, first.3 ++ rest.3)
      ]
