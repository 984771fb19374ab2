-- ===== src/Services/Triggering.antt =====
-- `rebuild_trigger_index`, `evaluate_triggers` and `reconcile_stacks` of
-- crates/services/src/services.rs: which services a change of the flow stops and starts, from the
-- declared services. What the registry answers is an argument; a panic is `none`.
pub mod Index
pub mod Targets
pub mod Evaluate
pub mod Contexts
pub mod Starts
pub mod Ends
pub mod Running
use rind.Prelude.{
  ℕ, Bool, true, false, not, ◌&&◌, ◌||◌, Option, none, some, List, [], ◌∷◌, ◌++◌, any, all, filter,
  if◌then◌else◌, ◌==◌, nat_beq,
}
use rind.Map
use rind.Map.{Map}
use rind.Set
use rind.Text.{Text, codes, text_eq}
use rind.Text.Split.{ends_with}
use rind.ScopedNames.{joined}
use rind.Payload.{JsonCodec, FlowPayload}
use rind.Matching.{FlowItem, simple, detailed, FlowInstance, FlowType, check_condition}
use rind.Facets.{Facets}
use rind.Flow.Index.{add_names}
use rind.Flow.Impulses.{condition_is_active, condition_matches}
use rind.Services.{
  ChildInstance, BranchingConfig, Service, ServiceRuntime, ServiceBranchContext, ServiceState,
  Effect, graceful,
}
use rind.Services.Instances.{is_running, is_live}
use rind.Services.Exits.{ServiceEventKind, started, stopped, failed, exited_with}
use rind.Services.Stopping.{stop_service}
use rind.Services.Branching.{branch_key_from_payload}
use mathlib.Core.Option

-- A declared service with its scope and group, and what the triggers read of its metadata.
pub record Declared : Type 0 where
  pub scope : Text
  pub group : Text
  pub name : Text
  pub start_on : Option (List FlowItem)
  pub stop_on : Option (List FlowItem)
  pub after : Option (List Text)
  pub branching : Option BranchingConfig
  pub is_wait : Bool

-- `FlowItem::name`
unfoldable pub item_name : FlowItem → Option Text
item_name (simple name) = some name
item_name (detailed (some facet) impulse target branch) = some facet
item_name (detailed none impulse target branch) = impulse

unfoldable pub item_names : List FlowItem → Option (List Text)
unfolding item_name
item_names [] = some []
item_names (item ∷ items) =
    Option.bind (item_name item) (λ n. Option.map (λ ns. n ∷ ns) (item_names items))

abbrev pub or_nil {ℓ} : {A : Type ℓ} → Option (List A) → List A
or_nil none = []
or_nil (some xs) = xs

-- The names that the service waits for. The source puts them into a set; a name that occurs twice
-- is entered twice into the index here, which changes nothing.
unfoldable pub interests : Declared → Option (List Text)
unfolding item_names
interests d = item_names (or_nil d.start_on ++ or_nil d.stop_on)

abbrev pub service_key : Declared → Text
service_key d = joined d.group d.name ++ b'@' ∷ d.scope

unfoldable pub add_services : List Declared → Map Text (List Text) → Option (Map Text (List Text))
unfolding interests
add_services [] index = some index
add_services (d ∷ ds) index =
    Option.bind (interests d) (λ names. add_services ds (add_names (service_key d) names index))

unfoldable pub rebuild_trigger_index : List Declared → Option (Map Text (List Text))
unfolding add_services
rebuild_trigger_index ds = add_services ds []

abbrev pub runs : List ChildInstance → Bool
runs insts = any (λ i. is_running i.state) insts

module _ (codec : JsonCodec) (facets : Facets) where
  unfoldable pub should_stop : Option FlowInstance → Option (List FlowItem) → Bool
  should_stop event none = false
  should_stop event (some conds) =
      any (λ cond. condition_matches codec facets cond event none) conds

  -- a condition of `start_on` that the event has met and that is active no more
  unfoldable pub ended_by : FlowInstance → List FlowItem → Bool
  ended_by event conds =
      any
        (λ cond.
          check_condition codec cond event && not (condition_is_active codec facets cond none))
        conds

  -- `reverts` says that the action of the trigger is `Revert`
  unfoldable pub auto_stop_on_revert : Bool → Option FlowInstance → Declared → Bool
  unfolding ended_by
  auto_stop_on_revert reverts event d = elim d.stop_on [
    | some conds ↦ false
    | none ↦ elim event [ none ↦ false | some e ↦ reverts && ended_by e (or_nil d.start_on) ]
  ]

  unfoldable pub should_start : Option FlowInstance → Option (List FlowItem) → Bool
  should_start event none = false
  should_start event (some conds) =
      all (λ cond. condition_matches codec facets cond event none) conds

  -- the keys of the running instances of the branch that has ended
  unfoldable pub keys_to_stop : Option Text → List ChildInstance → List Text
  keys_to_stop none insts = []
  keys_to_stop (some key) [] = []
  keys_to_stop (some key) (inst ∷ insts) =
      let rest = keys_to_stop (some key) insts in
      if is_running inst.state && key == inst.key then inst.key ∷ rest else rest

  unfoldable pub branch_to_stop :
      Bool → Option FlowInstance → BranchingConfig → List ChildInstance → List Text
  unfolding keys_to_stop
  branch_to_stop reverts none branching insts = []
  branch_to_stop reverts (some event) branching insts = elim branching.key [
    | none ↦ []
    | some field ↦
        if reverts && runs insts && event.name == branching.source
        then keys_to_stop (branch_key_from_payload codec event.payload (some field)) insts
        else []
  ]

  -- `as_one`: the instances of a service, where it is instantiated
  module _ (as_one : Text → Option (List ChildInstance)) where
    unfoldable pub all_active : Option (List Text) → Bool
    all_active none = true
    all_active (some afters) =
        all (λ a. elim (as_one a) [ none ↦ false | some insts ↦ runs insts ]) afters

    -- the guards of the source before a service is put into `to_start`
    unfoldable pub starts_now : Option FlowInstance → Declared → Bool → Bool
    unfolding should_start all_active
    starts_now event d is_running =
        should_start event d.start_on
        && all_active d.after
        && not (elim d.branching [ some b ↦ false | none ↦ is_running ])

-- the stops of one instance of the service
unfoldable pub stop_branches :
    ℕ → Text → Bool → List Text → Service → ServiceRuntime → Service × ServiceRuntime × List Effect
stop_branches now key notifies [] s rt = (s, rt, [])
stop_branches now key notifies (branch ∷ branches) s rt =
    let first = stop_service now graceful (some branch) none none (some key) notifies s rt in
    let rest = stop_branches now key notifies branches first.0 first.1 in
    (rest.0, rest.1, first.2 ++ rest.2)

unfoldable pub evaluate_stop :
    JsonCodec
    → Facets
    → ℕ
    → Bool
    → Bool
    → Option FlowInstance
    → Text
    → Declared
    → Service
    → ServiceRuntime
    → Service × ServiceRuntime × List Effect
unfolding stop_branches
evaluate_stop codec facets now notifies reverts event key d s rt = elim d.branching [
  | some branching ↦
      stop_branches now key notifies
        (branch_to_stop codec facets reverts event branching s.instances) s rt
  | none ↦
      if (should_stop codec facets event d.stop_on
          || auto_stop_on_revert codec facets reverts event d)
        && runs s.instances
      then stop_service now graceful none none none (some key) notifies s rt
      else (s, rt, [])
]

-- `reconcile_stacks`: the services that come after the one of the event
abbrev pub comes_after : Text → Declared → Bool
comes_after name d = any (λ a. a == name) (or_nil d.after)

unfoldable pub dependents : Text → List Declared → List Declared
dependents name [] = []
dependents name (d ∷ ds) =
    let rest = dependents name ds in if comes_after name d then d ∷ rest else rest

-- the completion of a service of the type `Wait`
unfoldable pub is_wait_completed : Bool → ServiceEventKind → Bool
is_wait_completed is_wait (exited_with code) = is_wait && nat_beq code 0
is_wait_completed is_wait kind = false

-- an instance that keeps a dependent from its start
unfoldable pub holds_back : ServiceState → Bool
holds_back ServiceState.active = false
holds_back ServiceState.starting = false
holds_back s = true

abbrev pub stands : Option (List ChildInstance) → Bool
stands none = false
stands (some []) = false
stands (some (inst ∷ insts)) = not (any (λ x. holds_back x.state) (inst ∷ insts))

unfoldable pub starts_after :
    JsonCodec → Option Facets → (Text → Option (List ChildInstance)) → Declared → Bool
unfolding holds_back
starts_after codec facets as_one d =
    elim d.start_on [
      | none ↦ true
      | some conds ↦ elim facets [
        | none ↦ false
        | some sm ↦ all (λ cond. condition_is_active codec sm cond none) conds
      ]
    ]
    && any (λ a. stands (as_one a)) (or_nil d.after)

-- the dependents that are stopped, and those that are started
unfoldable pub reconcile_stacks :
    JsonCodec
    → Option Facets
    → (Text → Option (List ChildInstance))
    → Bool
    → Text
    → ServiceEventKind
    → List Declared
    → List Declared × List Declared
unfolding dependents is_wait_completed starts_after
reconcile_stacks codec facets as_one is_wait name started ds =
    ([], filter (starts_after codec facets as_one) (dependents name ds))
reconcile_stacks codec facets as_one is_wait name kind ds =
    if is_wait_completed is_wait kind then ([], []) else (dependents name ds, [])
