-- ===== src/Services/Stopping/Marked.antt =====
-- What a stop leaves of the instances, and what a sweep after the timeout does with their processes.
use rind.Prelude.{
  ℕ, ◌≡◌, refl, ap, ◌∙◌, inl, inr, Bool, false, Option, none, some, List, [], ◌∷◌, map, any,
  if◌then◌else◌, nat_eq, Bool-cases,
}
use rind.Text.{Text}
use rind.Services.{ChildInstance, InstanceHandle, Service, ServiceRuntime, StopMode}
use rind.Services.Instances.{is_active, is_active_state}
use rind.Services.Stopping.{
  selected, stop_selected, stop_service_instance, stop_each, stop_instances, stop_service, settle,
  mark_stopping, mark_inactive,
}

abbrev pub halted_by : ℕ → Option InstanceHandle → ChildInstance → ChildInstance
halted_by now none inst = mark_inactive inst
halted_by now (some handle) inst = mark_stopping now inst

-- an instance after a stop
abbrev pub halted : ℕ → Option Text → Option Text → ChildInstance → ChildInstance
halted now key user inst = if selected key user inst then halted_by now inst.handle inst else inst

selected_halted :
    (now : ℕ) (mode : StopMode) (inst : ChildInstance) (rt : ServiceRuntime)
    (h : Option InstanceHandle)
    → (stop_selected now mode inst rt h).0 ≡ halted_by now h inst
unfolding stop_selected
selected_halted now mode inst rt none = refl
selected_halted now mode inst rt (some handle) = refl

instance_halted :
    (now : ℕ) (mode : StopMode) (key user : Option Text) (inst : ChildInstance)
    (rt : ServiceRuntime)
    → (stop_service_instance now mode key user inst rt).0 ≡ halted now key user inst
unfolding stop_service_instance
instance_halted now mode key user inst rt = elim (Bool-cases (selected key user inst)) [
  | inl e ↦ rw e (selected_halted now mode inst rt inst.handle)
  | inr e ↦ rw e refl
]

each_halted :
    (now : ℕ) (mode : StopMode) (key user : Option Text) (insts : List ChildInstance)
    (rt : ServiceRuntime)
    → (stop_each now mode key user insts rt).0 ≡ map (halted now key user) insts
unfolding stop_each
each_halted now mode key user [] rt = refl
each_halted now mode key user (inst ∷ insts) rt =
    rw (instance_halted now mode key user inst rt, each_halted now mode key user insts _) refl

pub settled_instances :
    (name : Text) (n : Bool) (service : Service) (effects : _)
    → (settle name n service effects).0.instances ≡ service.instances
unfolding settle
settled_instances name n service effects =
    elim (Bool-cases (any (λ x. is_active_state x.state) service.instances)) [
      | inl e ↦ rw e refl
      | inr e ↦ rw e refl
    ]

-- A stop without an index sets every instance that the key and the user select to stopping where it
-- has a process, to inactive where it has none, and leaves the others.
pub stop_service-halted :
    (now : ℕ) (mode : StopMode) (key user service_key : Option Text) (n : Bool) (service : Service)
    (rt : ServiceRuntime)
    → (stop_service now mode key user none service_key n service rt).0.instances
      ≡ map (halted now key user) service.instances
unfolding stop_service stop_instances
stop_service-halted now mode key user service_key n service rt =
    settled_instances _ n _ _ ∙ each_halted now mode key user service.instances rt

not_active :
    (now : ℕ) (h : Option InstanceHandle) (inst : ChildInstance)
    → is_active_state (halted_by now h inst).state ≡ false
unfolding is_active_state
not_active now none inst = refl
not_active now (some handle) inst = refl

halted_idle :
    (now : ℕ) (insts : List ChildInstance) → is_active (map (halted now none none) insts) ≡ false
unfolding is_active selected
halted_idle now [] = refl
halted_idle now (inst ∷ insts) = rw (not_active now inst.handle inst) (halted_idle now insts)

-- After a stop of all instances none is active.
stop_service-is_active :
    (now : ℕ) (mode : StopMode) (service_key : Option Text) (n : Bool) (service : Service)
    (rt : ServiceRuntime)
    → is_active (stop_service now mode none none none service_key n service rt).0.instances ≡ false
stop_service-is_active now mode service_key n service rt =
    ap is_active (stop_service-halted now mode none none service_key n service rt)
    ∙ halted_idle now service.instances
