-- ===== src/Services/Runs/Phantom.antt =====
-- What a restart leaves: the instance that has exited stays the first of its service and the start
-- sets it active, without a process.
use rind.Prelude.{
  ℕ, zero, suc, ◌≡◌, ◌≢◌, refl, sym, ◌∙◌, ap, subst, Bool, true, false, Option, none, some, List,
  [], ◌∷◌, get_elem?,
}
use rind.Text.{Text}
use rind.Services.{ChildInstance, InstanceHandle, Service, ServiceRuntime, active, Effect}
use rind.Services.Instances.{
  at_first, pid, has_pid, find_by_pid, update_at, is_live, is_active, is_active_state,
}
use rind.Services.Exits.{
  ServiceExitAction, restart, stop_dependents, retained, after_exit, exit_at, found_at, exit_found,
  handle_child_exit,
}
use rind.Services.Starting.{start_unless, start_service, first_is_live}
use rind.Services.Runs.{Outside, Unattended, exits, starts, Drift, here, next}
use mathlib.Core.Option

-- The first instance is active and has no process.
abbrev pub IsPhantom : List ChildInstance → Type 0
IsPhantom [] = ⊥
IsPhantom (inst ∷ insts) = (inst.handle ≡ none) × (inst.state ≡ active)

update_at-IsPhantom :
    (i : ℕ) (f : ChildInstance → ChildInstance) (insts : List ChildInstance)
    → IsPhantom insts
    → IsPhantom (update_at (suc i) f insts)
unfolding update_at
update_at-IsPhantom i f [] h = h
update_at-IsPhantom i f (inst ∷ insts) h = h

retained-IsPhantom : (insts : List ChildInstance) → IsPhantom insts → IsPhantom (retained insts)
unfolding retained is_live
retained-IsPhantom [] h = h
retained-IsPhantom (inst ∷ insts) h = rw h.1 (h.0, refl)

after_exit-IsPhantom :
    (resumed : Bool) (exists : Text → Bool) (key : Text) (action : ServiceExitAction)
    (service : Service) (effects : List Effect)
    → IsPhantom service.instances
    → IsPhantom (after_exit resumed exists key action service effects).1.instances
unfolding after_exit
after_exit-IsPhantom resumed exists key restart service effects h = h
after_exit-IsPhantom resumed exists key stop_dependents service effects h =
    retained-IsPhantom service.instances h

no_pid :
    (p : ℕ) (handle : Option InstanceHandle)
    → handle ≡ none
    → has_pid p (Option.bind handle (λ h. h.pid)) ≡ false
unfolding has_pid Option.bind
no_pid p none h = refl
no_pid p (some handle) h = cc

not_first : (p : ℕ) (insts : List ChildInstance) → IsPhantom insts → find_by_pid p insts ≢ some zero
unfolding find_by_pid pid
not_first p [] h e = absurd h
not_first p (inst ∷ insts) h e =
    let found = at_first (has_pid p (pid inst)) (find_by_pid p insts) e in
    let missed = no_pid p inst.handle h.0 in cc

picked :
    (k : ℕ) (o : Option ChildInstance) (idx : ℕ) (inst : ChildInstance)
    → Option.map {B = ℕ × ChildInstance} (λ x. (k, x)) o ≡ some (idx, inst)
    → some k ≡ some idx
picked k none idx inst h = cc
picked k (some x) idx inst h = ap (Option.map (λ (q : ℕ × ChildInstance). q.0)) h

found_index :
    (i : Option ℕ) (insts : List ChildInstance) (idx : ℕ) (inst : ChildInstance)
    → Option.bind {B = ℕ × ChildInstance} i (λ k. Option.map (λ x. (k, x)) (get_elem? insts k))
      ≡ some (idx, inst)
    → i ≡ some idx
unfolding Option.bind
found_index none insts idx inst h = cc
found_index (some k) insts idx inst h = picked k (get_elem? insts k) idx inst h

exit_found-IsPhantom :
    (resumed : Bool) (exists : Text → Bool) (key : Text) (p code : ℕ)
    (found : Option (ℕ × ChildInstance)) (service : Service) (effects : List Effect)
    → found_at p service.instances ≡ found
    → IsPhantom service.instances
    → IsPhantom (exit_found resumed exists key code found service effects).1.instances
unfolding exit_found exit_at
exit_found-IsPhantom resumed exists key p code none service effects e h = h
exit_found-IsPhantom resumed exists key p code (some (zero, inst)) service effects e h =
    absurd (not_first p service.instances h (found_index _ service.instances zero inst e))
exit_found-IsPhantom resumed exists key p code (some (suc idx, inst)) service effects e h =
    after_exit-IsPhantom resumed exists key _ _ _ (update_at-IsPhantom idx _ service.instances h)

pub IsPhantom-is_active : (insts : List ChildInstance) → IsPhantom insts → is_active insts ≡ true
unfolding is_active is_active_state
IsPhantom-is_active [] h = absurd h
IsPhantom-is_active (inst ∷ insts) h = rw h.1 refl

IsPhantom-first_is_live :
    (insts : List ChildInstance) → IsPhantom insts → first_is_live insts ≡ true
unfolding first_is_live is_live
IsPhantom-first_is_live [] h = absurd h
IsPhantom-first_is_live (inst ∷ insts) h = rw h.1 refl

-- the metadata of a service after an exit
after_exit-metadata :
    (resumed : Bool) (exists : Text → Bool) (key : Text) (action : ServiceExitAction)
    (service : Service) (effects : List Effect)
    → (after_exit resumed exists key action service effects).1.metadata ≡ service.metadata
unfolding after_exit
after_exit-metadata resumed exists key restart service effects = refl
after_exit-metadata resumed exists key stop_dependents service effects = refl

pub exit_found-metadata :
    (resumed : Bool) (exists : Text → Bool) (key : Text) (code : ℕ)
    (found : Option (ℕ × ChildInstance)) (service : Service) (effects : List Effect)
    → (exit_found resumed exists key code found service effects).1.metadata ≡ service.metadata
unfolding exit_found exit_at
exit_found-metadata resumed exists key code none service effects = refl
exit_found-metadata resumed exists key code (some (idx, inst)) service effects =
    after_exit-metadata resumed exists key _ _ _

-- A singleton with a phantom.
abbrev pub IsStuck : Service → Type 0
IsStuck s = IsPhantom s.instances × (s.metadata.singleton ≡ true)

module _ (o : Outside) where
  -- Another start changes nothing.
  pub IsStuck-start_service :
      (s : Service) (rt : ServiceRuntime)
      → IsStuck s
      → start_service o.codec o.launch o.resolve o.message o.facets o.registry_key s rt
        ≡ (s, rt, [])
  unfolding start_service start_unless
  IsStuck-start_service s rt h = rw (IsPhantom-first_is_live s.instances h.0, h.1) refl

  Unattended-IsStuck : {s t : Service} → Unattended o s t → IsStuck s → IsStuck t
  unfolding handle_child_exit
  Unattended-IsStuck {s} (exits resumed p code rt e) h = subst IsStuck (sym e) (
    exit_found-IsPhantom resumed o.exists o.registry_key p code (found_at p s.instances) s _ refl
        h.0,
    ap (λ m. m.singleton)
          (exit_found-metadata resumed o.exists o.registry_key code (found_at p s.instances) s _)
        ∙ h.1,
  )
  Unattended-IsStuck {s} (starts rt e) h =
      subst IsStuck (sym (e ∙ ap (λ r. r.0) (IsStuck-start_service s rt h))) h

  pub Drift-IsStuck : {s t : Service} → Drift o s t → IsStuck s → IsStuck t
  Drift-IsStuck here h = h
  Drift-IsStuck (next d u) h = Unattended-IsStuck u (Drift-IsStuck d h)
