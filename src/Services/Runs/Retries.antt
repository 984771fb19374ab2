-- ===== src/Services/Runs/Retries.antt =====
-- The retries of a restart policy, over any run of a service.
use rind.Prelude.{
  ℕ, zero, suc, ◌<◌, ◌≡◌, ◌≢◌, refl, sym, ◌∙◌, ap, subst, arith, inl, inr, Bool, true, false,
  Option, none, some, List, [], ◌∷◌, Bool-cases, All-append, get_elem?, nat_beq_iff,
}
use rind.Text.{Text}
use rind.Error.{CoreError, CoreResult, ok, err, CoreResult-cases}
use rind.Services.{
  ChildInstance, InstanceHandle, Service, ServiceRuntime, ServiceMetadata, ServiceBranchContext,
  RunOption, on_failure, new,
}
use rind.Services.Instances.{at_first, at_later, pid, has_pid, find_by_pid, as_many, new_instance}
use rind.Services.Exits.{handle_child_exit}
use rind.Services.Exits.Restarts.{restarts, allowed, handle_child_exit-restarts}
use rind.Services.Starting.{
  Launched, cons_ok, spawn_each, started_with, spawn_all, start_unless, start_service, is_inactive,
}
use rind.Services.Runs.{
  Outside, Unattended, exits, starts, Step, by_itself, stops, Reach, here, next,
}
use rind.Services.Runs.Fresh.{
  IsFresh, AllFresh, set_first-All, handle_child_exit-AllFresh, stop_service-AllFresh,
}
use mathlib.Core.Option

-- What a spawn gives, where it gives anything, is fresh.
abbrev Spawned : CoreResult (List ChildInstance) → Type 0
Spawned (ok insts) = AllFresh insts
Spawned (err e) = Unit

cons_ok-Spawned :
    (inst : ChildInstance) (r : CoreResult (List ChildInstance))
    → IsFresh inst
    → Spawned r
    → Spawned (cons_ok inst r)
cons_ok-Spawned inst (ok insts) f h = (f, h)
cons_ok-Spawned inst (err e) f h = tt

spawn_each-Spawned :
    (launch : RunOption → Option ServiceBranchContext → CoreResult Launched)
    (resolve : RunOption → RunOption) (key : Text) (ctx : Option ServiceBranchContext)
    (runs : List RunOption) (rt : ServiceRuntime)
    → Spawned (spawn_each launch resolve key ctx runs rt).0
unfolding spawn_each new_instance
spawn_each-Spawned launch resolve key ctx [] rt = tt
spawn_each-Spawned launch resolve key ctx (run ∷ runs) rt =
    elim (CoreResult-cases (launch (resolve run) ctx)) [
      | inl (e, h) ↦ rw (spawn_each, h) tt
      | inr (l, h) ↦
          rw (spawn_each, h)
            (cons_ok-Spawned _ _ (inr refl) (spawn_each-Spawned launch resolve key ctx runs _))
    ]

started_with-AllFresh :
    (message : CoreError → Text) (key : Text) (r : CoreResult (List ChildInstance)) (s : Service)
    → Spawned r
    → AllFresh s.instances
    → AllFresh (started_with message key r s).0.instances
unfolding started_with
started_with-AllFresh message key (ok insts) s f h =
    set_first-All _ _ (All-append IsFresh s.instances insts h f)
started_with-AllFresh message key (err e) s f h = set_first-All _ _ h

module _ (o : Outside) where
  spawn_all-Spawned :
      (key : Text) (s : Service) (rt : ServiceRuntime)
      → Spawned (spawn_all o.codec o.launch o.resolve o.message o.facets key none s rt).0
  unfolding spawn_all
  spawn_all-Spawned key s rt = elim (Bool-cases (is_inactive o.codec o.facets key)) [
    | inl e ↦ rw e tt
    | inr e ↦ rw e (spawn_each-Spawned o.launch o.resolve key none (as_many s.metadata.run) rt)
  ]

  start_unless-AllFresh :
      (b : Bool) (key : Text) (s : Service) (rt : ServiceRuntime)
      → AllFresh s.instances
      → AllFresh (start_unless o.codec o.launch o.resolve o.message o.facets b key s rt).0.instances
  unfolding start_unless
  start_unless-AllFresh true key s rt h = h
  start_unless-AllFresh false key s rt h =
      started_with-AllFresh o.message key _ s (spawn_all-Spawned key s rt) h

  Unattended-AllFresh :
      {s t : Service} → Unattended o s t → AllFresh s.instances → AllFresh t.instances
  unfolding start_service
  Unattended-AllFresh {s} (exits resumed p code rt e) h =
      subst (λ t. AllFresh t.instances) (sym e)
        (handle_child_exit-AllFresh resumed o.exists o.registry_key p code s rt h)
  Unattended-AllFresh {s} (starts rt e) h =
      subst (λ t. AllFresh t.instances) (sym e) (start_unless-AllFresh _ o.registry_key s rt h)

  Step-AllFresh : {s t : Service} → Step o s t → AllFresh s.instances → AllFresh t.instances
  Step-AllFresh (by_itself u) h = Unattended-AllFresh u h
  Step-AllFresh (stops now mode key user index n rt e) h =
      subst (λ t. AllFresh t.instances) (sym e)
        (stop_service-AllFresh now mode key user index _ n _ rt h)

  Reach-AllFresh : {s t : Service} → Reach o s t → AllFresh s.instances → AllFresh t.instances
  Reach-AllFresh here h = h
  Reach-AllFresh (next r st) h = Step-AllFresh st (Reach-AllFresh r h)

has_pid-some : (p : ℕ) (o : Option ℕ) → has_pid p o ≡ true → o ≡ some p
unfolding has_pid
has_pid-some p none h = cc
has_pid-some p (some q) h = ap some ((nat_beq_iff q p).0 h)

-- what holds of an instance that stands at the index of a process
abbrev Holds : ℕ → List ChildInstance → ChildInstance → Type 0
Holds p insts inst = (AllFresh insts → IsFresh inst) × (pid inst ≡ some p)

find_by_pid_lem :
    (p i : ℕ) (insts : List ChildInstance) (inst : ChildInstance)
    → find_by_pid p insts ≡ some i
    → get_elem? insts i ≡ some inst
    → Holds p insts inst
unfolding find_by_pid
find_by_pid_lem p i [] inst h g = cc
find_by_pid_lem p zero (x ∷ insts) inst h g =
    subst (Holds p (x ∷ insts)) (Option.some-injective x inst g)
      (λ f. f.0, has_pid-some p (pid x) (at_first (has_pid p (pid x)) (find_by_pid p insts) h))
find_by_pid_lem p (suc i) (x ∷ insts) inst h g =
    let rest =
      find_by_pid_lem p i insts inst (at_later (has_pid p (pid x)) (find_by_pid p insts) i h) g in
    (λ f. rest.0 f.1, rest.1)

has_handle :
    (inst : ChildInstance) (p : ℕ) (handle : Option InstanceHandle)
    → Option.bind handle (λ h. h.pid) ≡ some p
    → handle ≢ none
unfolding Option.bind
has_handle inst p none h = cc
has_handle inst p (some handle) h = λ e. cc

uncounted : (inst : ChildInstance) (p : ℕ) → pid inst ≡ some p → IsFresh inst → inst.retry_count ≡ 0
unfolding pid
uncounted inst p h (inl e) = absurd (has_handle inst p inst.handle h e)
uncounted inst p h (inr e) = e

allowed_first :
    (max code : ℕ) (inst : ChildInstance)
    → inst.manually_stopped ≡ false
    → code ≢ 0
    → inst.retry_count ≡ 0
    → 0 < max
    → allowed (some (on_failure max)) code inst ≡ true
allowed_first max code inst unstopped failed count some_retry = ground arith

-- Whatever exits, starts and stops follow on the making of a service whose restart policy is
-- OnFailure with a limit above zero: when a process of an instance that was not stopped by hand
-- exits with another code than zero, no retry is counted on the instance, and handle_child_exit
-- asks for a restart, so that the limit never holds one back.
pub restart_never_exhausted :
    (o : Outside) (m : ServiceMetadata) (s : Service)
    → Reach o (new m) s
    → (max_retries p code idx : ℕ) (inst : ChildInstance)
    → s.metadata.restart ≡ some (on_failure max_retries)
    → 0 < max_retries
    → code ≢ 0
    → find_by_pid p s.instances ≡ some idx
    → get_elem? s.instances idx ≡ some inst
    → inst.manually_stopped ≡ false
    → (resumed : Bool) (rt : ServiceRuntime)
    → (inst.retry_count ≡ 0)
      × (restarts (handle_child_exit resumed o.exists o.registry_key p code s rt).0.0 ≡ true)
unfolding new Option.bind
restart_never_exhausted o m s r max p code idx inst policy some_retry failed found at unstopped
      resumed rt =
    let held = find_by_pid_lem p idx s.instances inst found at in
    let zero_count = uncounted inst p held.1 (held.0 (Reach-AllFresh o r tt)) in
    let answers =
      handle_child_exit-restarts resumed o.exists o.registry_key p code idx inst s rt
        (rw (found, at) refl) in
    (
      zero_count,
      answers.0
          ∙ ap (λ policy. allowed policy code inst) policy
          ∙ allowed_first max code inst unstopped failed zero_count some_retry,
    )
