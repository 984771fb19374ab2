-- ===== src/Services/Triggering/Running.antt =====
-- What `evaluate_triggers` of crates/services/src/services.rs does with a service that runs.
use rind.Prelude.{
  ℕ, ◌≡◌, refl, ap, ◌∙◌, Bool, true, false, Option, none, some, List, [], ◌∷◌, append-nil, arith,
  Bool-cases, inl, inr, ◌⊎◌, if◌then◌else◌, ◌==◌,
}
use rind.Map
use rind.Text.{Text, text_eq}
use rind.Error.{ok}
use rind.Payload.{JsonCodec}
use rind.Matching.{FlowInstance}
use rind.Facets.{Facets}
use rind.Variables.{Toml}
use rind.Registry.{Item, MetadataRegistry}
use rind.Registry.Instances.{Boxed, InstanceMap}
use rind.Services.{ChildInstance, Service, ServiceRuntime, Effect, graceful}
use rind.Services.Branching.{TomlReader, Heap}
use rind.Services.Stopping.{ensure_scoped_name, stop_service}
use rind.Services.Triggering.Ends.{ends, Ends, ends-Ends, Ends-ends}
use rind.Services.Triggering.{Declared, runs, starts_now, evaluate_stop}
use rind.Services.Triggering.Targets.{
  Meta, target_item, evaluate_instances, evaluate_found, finish_target, evaluate_target, Outcome,
  instances_of, store,
}

module _ (codec : JsonCodec) (toml : Toml) (reader : TomlReader toml) {Obj : Type 0}
    (services : Boxed Obj Service) (r : MetadataRegistry Meta) (now : ℕ) (notifies reverts : Bool)
    (event : Option FlowInstance) (facets : Facets) (vh : Heap toml) where
  abbrev pub after_ends :
      Text → Declared → Service → ServiceRuntime → Service × ServiceRuntime × List Effect
  after_ends key d s rt =
      if ends codec facets reverts event d
      then stop_service now graceful none none none (some key) notifies s rt
      else (s, rt, [])

  evaluated :
      (key : Text) (d : Declared) (s : Service) (rt : ServiceRuntime)
      → d.branching ≡ none
      → runs s.instances ≡ true
      → evaluate_stop codec facets now notifies reverts event key d s rt ≡ after_ends key d s rt
  unfolding evaluate_stop
  evaluated key d s rt b h = elim (Bool-cases (ends codec facets reverts event d)) [
    | inl e ↦ simp (evaluate_stop, b, h, e)
    | inr e ↦ simp (evaluate_stop, b, h, e)
  ]

  instances_evaluated :
      (key : Text) (d : Declared) (s : Service) (rt : ServiceRuntime)
      → d.branching ≡ none
      → runs s.instances ≡ true
      → evaluate_instances codec toml reader services r now notifies reverts event facets vh key d
          (services.upcast s ∷ [])
          false
          rt
        ≡ (
          services.upcast (after_ends key d s rt).0 ∷ [],
          true,
          (after_ends key d s rt).1,
          (after_ends key d s rt).2,
        )
  unfolding evaluate_instances
  instances_evaluated key d s rt b h =
      rw (evaluate_instances, services.downcast-upcast s, evaluated key d s rt b h, h)
        (ap
          (λ effects. (
            services.upcast (after_ends key d s rt).0 ∷ [],
            true,
            (after_ends key d s rt).1,
            effects,
          ))
          (append-nil (after_ends key d s rt).2))

  not_started :
      (as_one : Text → Option (List ChildInstance)) (d : Declared)
      → d.branching ≡ none
      → starts_now codec facets as_one event d true ≡ false
  unfolding starts_now
  not_started as_one d b = rw b (ground arith)

  key_there :
      (key : Text) (insts : InstanceMap Obj) (objs : List Obj)
      → Map.get key insts ≡ some objs
      → Map.contains_key key insts ≡ true
  unfolding Map.get Map.contains_key
  key_there key [] objs h = cc
  key_there key ((k, v) ∷ insts) objs h = ground (arith, key_there key insts objs)

  -- what follows the stops
  abbrev finished :
      Text
      → Declared
      → InstanceMap Obj
      → List Obj × Bool × ServiceRuntime × List Effect
      → Outcome Obj
  finished name d insts (objs, is_running, rt, effects) =
      let left = store (ensure_scoped_name name) objs insts in
      finish_target codec toml reader services r now notifies reverts event facets vh
        (starts_now codec facets (instances_of services r left) event d is_running) name d left rt
        effects

  found_running :
      (name : Text) (d : Declared) (s : Service) (insts : InstanceMap Obj) (rt : ServiceRuntime)
      → d.branching ≡ none
      → Map.get (ensure_scoped_name name) insts ≡ some (services.upcast s ∷ [])
      → runs s.instances ≡ true
      → let stopped = after_ends (ensure_scoped_name name) d s rt in
        evaluate_found codec toml reader services r now notifies reverts event facets vh name d
          insts rt
        ≡ (
          ok [],
          Map.insert (ensure_scoped_name name) (services.upcast stopped.0 ∷ []) insts,
          stopped.1,
          stopped.2,
        )
  unfolding evaluate_found finish_target
  found_running name d s insts rt b there h =
      let key = ensure_scoped_name name in
      let held : Map.get_or key [] insts ≡ services.upcast s ∷ [] =
        Map.get-get_or key [] insts (services.upcast s ∷ []) there in
      let stopped = after_ends key d s rt in
      let objs = services.upcast stopped.0 ∷ [] in
      ap
        (λ found. finished name d insts (
          evaluate_instances codec toml reader services r now notifies reverts event facets vh key d
            found false rt))
        held
      ∙ ap (finished name d insts) (instances_evaluated key d s rt b h)
      ∙ ap
          (λ lets.
            finish_target codec toml reader services r now notifies reverts event facets vh lets
              name d (store key objs insts) stopped.1 stopped.2)
          (not_started (instances_of services r (store key objs insts)) d b)
      ∙ ap (λ c. (ok [], if c then Map.insert key objs insts else insts, stopped.1, stopped.2))
          (key_there key insts (services.upcast s ∷ []) there)

  -- What evaluate_triggers leaves: it starts nothing, and there is one instance under the key.
  abbrev pub Leaves :
      Text → InstanceMap Obj → Outcome Obj → Service × ServiceRuntime × List Effect → Type 0
  Leaves key insts result left =
      (result.0 ≡ ok [])
      × ((other : Text)
          → Map.get other result.1
            ≡ (if key == other then some (services.upcast left.0 ∷ []) else Map.get other insts))
      × (result.2 ≡ left.1)
      × (result.3 ≡ left.2)

  -- For a target without branching whose only instance in the registry is a service that runs,
  -- evaluate_triggers starts nothing. Where a condition of stop-on is met, or there is no stop-on,
  -- the change reverts and its event meets a condition of start-on for which no facet stands any
  -- more, the service is stopped. Where neither is so, the service, the runtime and the effects
  -- stay as they were. All other instances stay in both cases.
  pub evaluate_target-running :
      (name : Text) (item : Item Meta) (s : Service) (insts : InstanceMap Obj) (rt : ServiceRuntime)
      → target_item services r name ≡ some item
      → item.value.0.branching ≡ none
      → Map.get (ensure_scoped_name name) insts ≡ some (services.upcast s ∷ [])
      → runs s.instances ≡ true
      → let key = ensure_scoped_name name in
        let d = item.value.0 in
        let result =
          evaluate_target codec toml reader services r now notifies reverts event facets vh name
            insts rt in
        (Ends codec facets reverts event d.stop_on d.start_on
          × Leaves key insts result
              (stop_service now graceful none none none (some key) notifies s rt))
        ⊎ ((¬ Ends codec facets reverts event d.stop_on d.start_on)
            × Leaves key insts result (s, rt, []))
  unfolding evaluate_target
  evaluate_target-running name item s insts rt w b there h =
      let key = ensure_scoped_name name in
      let d = item.value.0 in
      let opened : evaluate_target codec toml reader services r now notifies reverts event facets vh
            name insts rt
          ≡ evaluate_found codec toml reader services r now notifies reverts event facets vh name d
              insts rt =
        rw (evaluate_target, w) refl in
      let whole = opened ∙ found_running name d s insts rt b there h in
      let leaves : Leaves key insts
          (evaluate_target codec toml reader services r now notifies reverts event facets vh name
            insts rt)
          (after_ends key d s rt) =
        (
          ap (λ p. p.0) whole,
          λ other. ap (λ p. Map.get other p.1) whole ∙ Map.get-insert key other _ insts,
          ap (λ p. p.2) whole,
          ap (λ p. p.3) whole,
        ) in
      elim (Bool-cases (ends codec facets reverts event d)) [
        | inl e ↦ inl (ends-Ends codec facets reverts event d e, rw e at leaves)
        | inr e ↦
            inr (
              (λ holds. let k = Ends-ends codec facets reverts event d holds in cc),
              rw e at leaves,
            )
      ]
