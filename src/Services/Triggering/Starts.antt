-- ===== src/Services/Triggering/Starts.antt =====
-- What `evaluate_triggers` of crates/services/src/services.rs starts.
use rind.Prelude.{
  ℕ, ◌≡◌, refl, sym, ap, subst, ◌∙◌, Bool, true, false, Option, some, List, [], ◌∷◌, ◌++◌, All,
  All-append, Bool-cases, Option-cases, inl, inr,
}
use rind.Json.Mem.{Mem, here, there}
use rind.Text.{Text, text_eq}
use rind.Error.{ok, >>=-eq-ok, CoreResult-cases}
use rind.Payload.{JsonCodec}
use rind.Matching.{FlowInstance}
use rind.Facets.{Facets}
use rind.Variables.{Toml}
use rind.Registry.{Item, MetadataRegistry}
use rind.Registry.Instances.{Boxed, InstanceMap}
use rind.Services.{ChildInstance, Service, ServiceRuntime, Effect}
use rind.Services.Branching.{TomlReader, Heap}
use rind.Services.Triggering.{Declared, should_start, starts_now}
use rind.Services.Triggering.Targets.{
  Start, Meta, starts_of, start_target, finish_target, evaluate_found, target_item, evaluate_target,
  evaluate_targets,
}
use rind.Services.Triggering.Contexts.{
  All-imp, All-nil, IsContext, IsMet, should_start-IsMet, starts_of-IsContext,
}

module _ (codec : JsonCodec) (toml : Toml) (reader : TomlReader toml) (event : Option FlowInstance)
    (facets : Facets) (vh : Heap toml) where
  module _ {Obj : Type 0} (services : Boxed Obj Service) (r : MetadataRegistry Meta) where
    -- A service of the names, whose conditions are met, with a branch that fits.
    abbrev pub IsStart : List Text → Start → Type 0
    IsStart names (name, context) =
        Mem name names
        × ((item : Item Meta) × (target_item services r name ≡ some item)
            × IsMet codec toml reader event facets vh item.value.0.start_on
            × IsContext codec toml reader event facets vh item.value.0.branching context)

    module _ (now : ℕ) (notifies reverts : Bool) where
      starts_now-IsMet :
          (as_one : Text → Option (List ChildInstance)) (d : Declared) (is_running : Bool)
          → starts_now codec facets as_one event d is_running ≡ true
          → IsMet codec toml reader event facets vh d.start_on
      unfolding starts_now
      starts_now-IsMet as_one d is_running e =
          elim (Bool-cases (should_start codec facets event d.start_on)) [
            | inl met ↦ should_start-IsMet codec toml reader event facets vh d.start_on met
            | inr not_met ↦ let k = rw (starts_now, not_met) at e in cc
          ]

      finish_target-IsContext :
          (lets : Bool) (name : Text) (d : Declared) (insts : InstanceMap Obj) (rt : ServiceRuntime)
          (effects : List Effect) (starts : List Start)
          → (lets ≡ true → IsMet codec toml reader event facets vh d.start_on)
          → (finish_target codec toml reader services r now notifies reverts event facets vh lets
              name d insts rt effects).0
            ≡ ok starts
          → All
              (λ s.
                (s.0 ≡ name)
                × IsMet codec toml reader event facets vh d.start_on
                × IsContext codec toml reader event facets vh d.branching s.1)
              starts
      unfolding finish_target start_target
      finish_target-IsContext false name d insts rt effects [] met h = tt
      finish_target-IsContext false name d insts rt effects (s ∷ starts) met h = cc
      finish_target-IsContext true name d insts rt effects starts met h =
          let (s, made, e) =
            >>=-eq-ok _ (λ s. ok (starts_of event facets codec toml reader vh name d s.instances))
              h in
          let same : starts_of event facets codec toml reader vh name d s.instances ≡ starts = cc in
          subst
            (λ xs.
              All
                (λ s.
                  (s.0 ≡ name)
                  × IsMet codec toml reader event facets vh d.start_on
                  × IsContext codec toml reader event facets vh d.branching s.1)
                xs)
            same
            (All-imp _ _ _ (λ s p. (p.0, met refl, p.1))
              (starts_of-IsContext codec toml reader event facets vh name d s.instances d.branching
                refl))

      evaluate_found-IsContext :
          (name : Text) (d : Declared) (insts : InstanceMap Obj) (rt : ServiceRuntime)
          (starts : List Start)
          → (evaluate_found codec toml reader services r now notifies reverts event facets vh name d
              insts rt).0
            ≡ ok starts
          → All
              (λ s.
                (s.0 ≡ name)
                × IsMet codec toml reader event facets vh d.start_on
                × IsContext codec toml reader event facets vh d.branching s.1)
              starts
      unfolding evaluate_found
      evaluate_found-IsContext name d insts rt starts h =
          finish_target-IsContext _ name d _ _ _ starts (starts_now-IsMet _ d _) h

      evaluate_target-IsStart :
          (names : List Text) (name : Text) (insts : InstanceMap Obj) (rt : ServiceRuntime)
          (starts : List Start)
          → Mem name names
          → (evaluate_target codec toml reader services r now notifies reverts event facets vh name
              insts rt).0
            ≡ ok starts
          → All (IsStart names) starts
      unfolding evaluate_target
      evaluate_target-IsStart names name insts rt starts m h =
          elim (Option-cases (target_item services r name)) [
            | inl w ↦ All-nil _ starts (rw (evaluate_target, w) at h)
            | inr (item, w) ↦
                let found : (evaluate_found codec toml reader services r now notifies reverts event
                      facets vh name item.value.0 insts rt).0
                    ≡ ok starts =
                  rw (evaluate_target, w) at h in
                All-imp _ _ _
                  (λ s p. (
                    subst (λ n. Mem n names) (sym p.0) m,
                    (item, ap (target_item services r) p.0 ∙ w, p.1, p.2),
                  ))
                  (evaluate_found-IsContext name item.value.0 insts rt starts found)
          ]

      evaluate_targets-inside :
          (all_names names : List Text) (insts : InstanceMap Obj) (rt : ServiceRuntime)
          (starts : List Start)
          → ((n : Text) → Mem n names → Mem n all_names)
          → (evaluate_targets codec toml reader services r now notifies reverts event facets vh
              names insts rt).0
            ≡ ok starts
          → All (IsStart all_names) starts
      unfolding evaluate_targets
      evaluate_targets-inside ns [] insts rt starts inside h = All-nil _ starts h
      evaluate_targets-inside ns (name ∷ names) insts rt starts inside h =
          let first =
            evaluate_target codec toml reader services r now notifies reverts event facets vh name
              insts rt in
          elim (CoreResult-cases first.0) [
            | inr (found, e) ↦
                let (more, later, joined) =
                  >>=-eq-ok _ (λ more. ok (found ++ more)) (rw (evaluate_targets, e) at h) in
                let same : found ++ more ≡ starts = cc in
                subst (λ xs. All (IsStart ns) xs) same
                  (All-append (IsStart ns) found more
                    (evaluate_target-IsStart ns name insts rt found (inside name here) e)
                    (evaluate_targets-inside ns names first.1 first.2 more
                      (λ n m. inside n (there m)) later))
            | inl (x, e) ↦ let k = rw (evaluate_targets, e) at h in cc
          ]

      -- Where the loop of evaluate_triggers gives what is to be started, each start is of a
      -- service among the targets that is declared and whose start-on conditions are all met. It
      -- carries no branch where the service has no branching, and else a branch of the source
      -- facet, or the impulse, whose key passes only and except.
      pub evaluate_targets-IsStart :
          (names : List Text) (insts : InstanceMap Obj) (rt : ServiceRuntime) (starts : List Start)
          → (evaluate_targets codec toml reader services r now notifies reverts event facets vh
              names insts rt).0
            ≡ ok starts
          → All (IsStart names) starts
      evaluate_targets-IsStart names insts rt starts h =
          evaluate_targets-inside names names insts rt starts (λ n m. m) h
