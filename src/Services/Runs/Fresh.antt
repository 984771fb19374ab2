-- ===== src/Services/Runs/Fresh.antt =====
-- An instance with a process has no retry counted: a restart makes another instance, whose count is
-- zero, and leaves the counted one without a process.
use rind.Prelude.{
  ℕ, zero, suc, ◌≡◌, refl, sym, subst, ◌⊎◌, inl, inr, Bool, Option, none, some, List, [], ◌∷◌,
  Bool-cases, All,
}
use rind.Text.{Text}
use rind.Services.{
  ChildInstance, InstanceHandle, Service, ServiceRuntime, ServiceState, StopMode, Effect,
}
use rind.Services.Instances.{update_at, is_live}
use rind.Services.Stopping.{
  selected, stop_selected, stop_service_instance, stop_each, stop_nth, stop_instances, stop_service,
}
use rind.Services.Stopping.Marked.{settled_instances}
use rind.Services.Exits.{
  ServiceExitAction, restart, stop_dependents, exit_instance, retained, after_exit, exit_at,
  found_at, exit_found, handle_child_exit,
}
use rind.Services.Starting.{set_first}

abbrev pub IsFresh : ChildInstance → Type 0
IsFresh inst = (inst.handle ≡ none) ⊎ (inst.retry_count ≡ 0)

abbrev pub AllFresh : List ChildInstance → Type 0
AllFresh insts = All IsFresh insts

update_at-All :
    (i : ℕ) (f : ChildInstance → ChildInstance) (insts : List ChildInstance)
    → ((inst : ChildInstance) → IsFresh inst → IsFresh (f inst))
    → AllFresh insts
    → AllFresh (update_at i f insts)
unfolding update_at
update_at-All i f [] keeps h = tt
update_at-All zero f (inst ∷ insts) keeps h = (keeps inst h.0, h.1)
update_at-All (suc i) f (inst ∷ insts) keeps h = (h.0, update_at-All i f insts keeps h.1)

retained-All : (insts : List ChildInstance) → AllFresh insts → AllFresh (retained insts)
unfolding retained
retained-All [] h = tt
retained-All (inst ∷ insts) h = elim (Bool-cases (is_live inst.state)) [
  | inl e ↦ rw e (h.0, retained-All insts h.1)
  | inr e ↦ rw e (retained-All insts h.1)
]

pub set_first-All :
    (s : ServiceState) (insts : List ChildInstance) → AllFresh insts → AllFresh (set_first s insts)
unfolding set_first
set_first-All s [] h = tt
set_first-All s (inst ∷ insts) h = h

after_exit-AllFresh :
    (resumed : Bool) (exists : Text → Bool) (key : Text) (action : ServiceExitAction)
    (service : Service) (effects : List Effect)
    → AllFresh service.instances
    → AllFresh (after_exit resumed exists key action service effects).1.instances
unfolding after_exit
after_exit-AllFresh resumed exists key restart service effects h = h
after_exit-AllFresh resumed exists key stop_dependents service effects h =
    retained-All service.instances h

exit_found-AllFresh :
    (resumed : Bool) (exists : Text → Bool) (key : Text) (code : ℕ)
    (found : Option (ℕ × ChildInstance)) (service : Service) (effects : List Effect)
    → AllFresh service.instances
    → AllFresh (exit_found resumed exists key code found service effects).1.instances
unfolding exit_found exit_at exit_instance
exit_found-AllFresh resumed exists key code none service effects h = h
exit_found-AllFresh resumed exists key code (some (idx, inst)) service effects h =
    after_exit-AllFresh resumed exists key _ _ _
      (update_at-All idx _ service.instances (λ i f. inl refl) h)

pub handle_child_exit-AllFresh :
    (resumed : Bool) (exists : Text → Bool) (key : Text) (p code : ℕ) (service : Service)
    (rt : ServiceRuntime)
    → AllFresh service.instances
    → AllFresh (handle_child_exit resumed exists key p code service rt).0.1.instances
unfolding handle_child_exit
handle_child_exit-AllFresh resumed exists key p code service rt h =
    exit_found-AllFresh resumed exists key code (found_at p service.instances) service _ h

stop_selected-IsFresh :
    (now : ℕ) (mode : StopMode) (inst : ChildInstance) (rt : ServiceRuntime)
    (o : Option InstanceHandle)
    → IsFresh inst
    → IsFresh (stop_selected now mode inst rt o).0
unfolding stop_selected
stop_selected-IsFresh now mode inst rt none h = h
stop_selected-IsFresh now mode inst rt (some handle) h = h

stop_service_instance-IsFresh :
    (now : ℕ) (mode : StopMode) (key user : Option Text) (inst : ChildInstance)
    (rt : ServiceRuntime)
    → IsFresh inst
    → IsFresh (stop_service_instance now mode key user inst rt).0
unfolding stop_service_instance
stop_service_instance-IsFresh now mode key user inst rt h =
    elim (Bool-cases (selected key user inst)) [
      | inl e ↦ rw e (stop_selected-IsFresh now mode inst rt inst.handle h)
      | inr e ↦ rw e h
    ]

stop_each-AllFresh :
    (now : ℕ) (mode : StopMode) (key user : Option Text) (insts : List ChildInstance)
    (rt : ServiceRuntime)
    → AllFresh insts
    → AllFresh (stop_each now mode key user insts rt).0
unfolding stop_each
stop_each-AllFresh now mode key user [] rt h = tt
stop_each-AllFresh now mode key user (inst ∷ insts) rt h = (
  stop_service_instance-IsFresh now mode key user inst rt h.0,
  stop_each-AllFresh now mode key user insts _ h.1,
)

stop_nth-AllFresh :
    (now : ℕ) (mode : StopMode) (key user : Option Text) (i : ℕ) (insts : List ChildInstance)
    (rt : ServiceRuntime)
    → AllFresh insts
    → AllFresh (stop_nth now mode key user i insts rt).0
unfolding stop_nth
stop_nth-AllFresh now mode key user i [] rt h = tt
stop_nth-AllFresh now mode key user zero (inst ∷ insts) rt h =
    (stop_service_instance-IsFresh now mode key user inst rt h.0, h.1)
stop_nth-AllFresh now mode key user (suc i) (inst ∷ insts) rt h =
    (h.0, stop_nth-AllFresh now mode key user i insts rt h.1)

stop_instances-AllFresh :
    (now : ℕ) (mode : StopMode) (key user : Option Text) (index : Option ℕ)
    (insts : List ChildInstance) (rt : ServiceRuntime)
    → AllFresh insts
    → AllFresh (stop_instances now mode key user index insts rt).0
unfolding stop_instances
stop_instances-AllFresh now mode key user none insts rt h =
    stop_each-AllFresh now mode key user insts rt h
stop_instances-AllFresh now mode key user (some i) insts rt h =
    stop_nth-AllFresh now mode key user i insts rt h

pub stop_service-AllFresh :
    (now : ℕ) (mode : StopMode) (key user : Option Text) (index : Option ℕ)
    (service_key : Option Text) (n : Bool) (service : Service) (rt : ServiceRuntime)
    → AllFresh service.instances
    → AllFresh (stop_service now mode key user index service_key n service rt).0.instances
unfolding stop_service
stop_service-AllFresh now mode key user index service_key n service rt h =
    subst AllFresh (sym (settled_instances _ n _ _))
      (stop_instances-AllFresh now mode key user index service.instances rt h)
