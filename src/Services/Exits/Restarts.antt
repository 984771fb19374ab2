-- ===== src/Services/Exits/Restarts.antt =====
-- When a process that has exited is started again, and which instances its service keeps.
use rind.Prelude.{
  ℕ, ◌≡◌, refl, arith, inl, inr, Bool, true, false, not, ◌&&◌, Option, none, some, List, [], ◌∷◌,
  Bool-cases, All, nat_beq, ltb,
}
use rind.Text.{Text}
use rind.Services.{
  ChildInstance, Service, ServiceRuntime, RestartPolicy, always, on_failure, Effect,
}
use rind.Services.Instances.{is_live}
use rind.Services.Exits.{
  ServiceExitAction, restart, stop_dependents, may_retry, exit_action, retained, after_exit,
  exit_at, found_at, exit_found, handle_child_exit,
}

abbrev pub action_of :
    (Option ServiceExitAction × Service × List Effect) × ServiceRuntime → Option ServiceExitAction
action_of r = r.0.0

abbrev pub service_of :
    (Option ServiceExitAction × Service × List Effect) × ServiceRuntime → Service
service_of r = r.0.1

-- Every instance of the list has a process or is about to have one.
abbrev pub AllLive : List ChildInstance → Type 0
AllLive insts = All (λ inst. is_live inst.state ≡ true) insts

retained-AllLive : (insts : List ChildInstance) → AllLive (retained insts)
unfolding retained
retained-AllLive [] = tt
retained-AllLive (inst ∷ insts) = elim (Bool-cases (is_live inst.state)) [
  | inl e ↦ rw e (e, retained-AllLive insts)
  | inr e ↦ rw e (retained-AllLive insts)
]

abbrev pub restarts : Option ServiceExitAction → Bool
restarts (some restart) = true
restarts _ = false

abbrev pub chosen : ServiceExitAction → Bool
chosen restart = true
chosen stop_dependents = false

-- when an instance that has exited is started again
abbrev pub allowed : Option RestartPolicy → ℕ → ChildInstance → Bool
allowed (some (always b)) code inst = not inst.manually_stopped && b
allowed (some (on_failure max_retries)) code inst =
    not inst.manually_stopped && not (nat_beq code 0) && ltb inst.retry_count max_retries
allowed none code inst = false

-- The answer says whether to start again, and otherwise only live instances are left.
abbrev pub Answers : Bool → Option ServiceExitAction × Service × List Effect → Type 0
Answers b r = (restarts r.0 ≡ b) × (b ≡ false → AllLive r.1.instances)

after_exit-Answers :
    (resumed : Bool) (exists : Text → Bool) (key : Text) (action : ServiceExitAction)
    (service : Service) (effects : List Effect)
    → Answers (chosen action) (after_exit resumed exists key action service effects)
unfolding after_exit
after_exit-Answers resumed exists key restart service effects = (refl, λ e. cc)
after_exit-Answers true exists key stop_dependents service effects =
    (refl, λ e. retained-AllLive service.instances)
after_exit-Answers false exists key stop_dependents service effects =
    (refl, λ e. retained-AllLive service.instances)

pub exit_action-allowed :
    (policy : Option RestartPolicy) (code : ℕ) (inst : ChildInstance)
    → chosen (exit_action policy code inst).0 ≡ allowed policy code inst
unfolding exit_action may_retry
exit_action-allowed none code inst = ground arith
exit_action-allowed (some (always true)) code inst = ground arith
exit_action-allowed (some (always false)) code inst = ground arith
exit_action-allowed (some (on_failure m)) code inst = ground arith

-- Where an instance has the pid, handle_child_exit asks for a restart exactly where the instance
-- was not stopped by hand and the policy is true or is OnFailure with another code than zero and
-- retries left, and otherwise leaves only instances that are active, starting or stopping.
pub handle_child_exit-restarts :
    (resumed : Bool) (exists : Text → Bool) (key : Text) (p code idx : ℕ) (inst : ChildInstance)
    (service : Service) (rt : ServiceRuntime)
    → found_at p service.instances ≡ some (idx, inst)
    → Answers
        (allowed service.metadata.restart code inst)
        (handle_child_exit resumed exists key p code service rt).0
unfolding handle_child_exit exit_found exit_at
handle_child_exit-restarts resumed exists key p code idx inst service rt h =
    rw (h, ← exit_action-allowed service.metadata.restart code inst)
      (after_exit-Answers resumed exists key _ _ _)
