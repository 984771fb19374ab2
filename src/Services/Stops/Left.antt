-- ===== src/Services/Stops/Left.antt =====
-- What `stop_for_scope` leaves running where a declared service has no instance.
use rind.Prelude.{ℕ, ◌≡◌, refl, ap, Bool, List, [], ◌∷◌, ◌++◌, inl, inr}
use rind.Text.{Text}
use rind.Error.{CoreError, ok, err, CoreResult-cases}
use rind.Registry.{MetadataRegistry}
use rind.Registry.Instances.{Boxed, InstanceMap, as_one}
use rind.Services.{ServiceMetadata, Service, ServiceRuntime}
use rind.Services.Stops.{Outcome, stop_declared, stop_items}

module _ {Obj : Type 0} (services : Boxed Obj Service) (r : MetadataRegistry ServiceMetadata)
    (now : ℕ) (notifies : Bool) (scope : Text) where
  abbrev pub stopped : List Text → InstanceMap Obj → ServiceRuntime → Outcome Obj
  stopped names insts rt = stop_items services r now notifies scope names insts rt

  refused :
      (name : Text) (insts : InstanceMap Obj) (rt : ServiceRuntime) (e : CoreError)
      → as_one services r scope name insts ≡ err e
      → stop_declared services r now notifies scope name insts rt ≡ (err e, insts, rt, [])
  unfolding stop_declared
  refused name insts rt e h = rw (stop_declared, h) refl

  missing :
      (name : Text) (after : List Text) (insts : InstanceMap Obj) (rt : ServiceRuntime)
      (e : CoreError)
      → as_one services r scope name insts ≡ err e
      → stopped (name ∷ after) insts rt ≡ (err e, insts, rt, [])
  unfolding stop_items
  missing name after insts rt e h =
      let ended = refused name insts rt e h in
      rw (stop_items, ap (λ (o : Outcome Obj). o.0) ended)
        (ap (λ (o : Outcome Obj). (err e, o.1, o.2, o.3)) ended)

  -- Where the loop of stop_for_scope stops the first declared services without error and the next
  -- one has no instance that as_one gives, the loop ends with the error of as_one, and the
  -- instances, the runtime and the effects are those after the first services: none of the
  -- services behind it is stopped.
  pub stop_items-missing :
      (before : List Text) (name : Text) (after : List Text) (insts : InstanceMap Obj)
      (rt : ServiceRuntime) (e : CoreError)
      → (stopped before insts rt).0 ≡ ok tt
      → as_one services r scope name (stopped before insts rt).1 ≡ err e
      → stopped (before ++ name ∷ after) insts rt ≡ (
        err e,
        (stopped before insts rt).1,
        (stopped before insts rt).2,
        (stopped before insts rt).3,
      )
  unfolding stop_items
  stop_items-missing [] name after insts rt e done h = missing name after insts rt e h
  stop_items-missing (n ∷ before) name after insts rt e done h =
      let first = stop_declared services r now notifies scope n insts rt in
      elim (CoreResult-cases first.0) [
        | inl (x, failed) ↦ let k = rw (stop_items, failed) at done in cc
        | inr (u, fine) ↦
            let rest =
              stop_items-missing before name after first.1 first.2 e (rw (stop_items, fine) at done)
                (rw (stop_items, fine) at h) in
            rw (stop_items, fine) (ap (λ (o : Outcome Obj). (o.0, o.1, o.2, first.3 ++ o.3)) rest)
      ]
