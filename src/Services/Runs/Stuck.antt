-- ===== src/Services/Runs/Stuck.antt =====
-- A singleton is started again once: the phantom of its first restart keeps it from the next.
use rind.Prelude.{
  ℕ, ◌≡◌, refl, sym, ◌∙◌, ap, subst, Bool, true, false, ◌&&◌, none, some, List, [], ◌∷◌, ◌++◌,
}
use rind.Text.{Text}
use rind.Error.{CoreError, CoreResult, ok, err}
use rind.Services.{ChildInstance, Service, ServiceRuntime, active, Effect}
use rind.Services.Instances.{pid, has_pid, find_by_pid, update_at, is_live, is_active}
use rind.Services.Exits.{
  ServiceExitAction, restart, stop_dependents, exit_instance, after_exit, exit_at, found_at,
  exit_found, handle_child_exit,
}
use rind.Services.Exits.Restarts.{allowed, chosen, exit_action-allowed}
use rind.Services.Starting.{
  set_first, started_with, spawn_all, start_unless, start_service, first_is_live,
}
use rind.Services.Runs.{Outside, exit_service, start_again, Drift}
use rind.Services.Runs.Phantom.{
  IsPhantom, IsStuck, IsPhantom-is_active, IsStuck-start_service, Drift-IsStuck,
  exit_found-metadata,
}
use rind.Services.Stopping.{disarm_watchdog_pid}
use mathlib.Core.Option

-- The first instance has exited.
abbrev IsDead : List ChildInstance → Type 0
IsDead [] = ⊥
IsDead (inst ∷ insts) = (inst.handle ≡ none) × (is_live inst.state ≡ false)

IsDead-first_is_live : (insts : List ChildInstance) → IsDead insts → first_is_live insts ≡ false
unfolding first_is_live
IsDead-first_is_live [] h = absurd h
IsDead-first_is_live (inst ∷ insts) h = h.1

revived : (xs ys : List ChildInstance) → IsDead xs → IsPhantom (set_first active (xs ++ ys))
unfolding set_first
revived [] ys dead = absurd dead
revived (x ∷ xs) ys dead = (dead.0, refl)

started-IsPhantom :
    (message : CoreError → Text) (key : Text) (r : CoreResult (List ChildInstance)) (s : Service)
    (insts : List ChildInstance)
    → r ≡ ok insts
    → IsDead s.instances
    → IsPhantom (started_with message key r s).0.instances
unfolding started_with
started-IsPhantom message key (err e) s insts h dead = cc
started-IsPhantom message key (ok spawned) s insts h dead = revived s.instances spawned dead

started_metadata :
    (message : CoreError → Text) (key : Text) (r : CoreResult (List ChildInstance)) (s : Service)
    → (started_with message key r s).0.metadata ≡ s.metadata
unfolding started_with
started_metadata message key (err e) s = refl
started_metadata message key (ok spawned) s = refl

restart_of : (a : ServiceExitAction) → chosen a ≡ true → a ≡ restart
restart_of restart h = refl
restart_of stop_dependents h = cc

exited_first :
    (code : ℕ) (retried : Bool) (inst : ChildInstance) (insts : List ChildInstance)
    → insts ≡ inst ∷ []
    → IsDead (update_at 0 (exit_instance code retried) insts)
unfolding update_at exit_instance is_live
exited_first code retried inst [] h = cc
exited_first code retried inst (x ∷ insts) h = (refl, refl)

after_restart :
    (resumed : Bool) (exists : Text → Bool) (key : Text) (a : ServiceExitAction) (s : Service)
    (effects : List Effect)
    → a ≡ restart
    → IsDead s.instances
    → IsDead (after_exit resumed exists key a s effects).1.instances
unfolding after_exit
after_restart resumed exists key restart s effects h dead = dead
after_restart resumed exists key stop_dependents s effects h dead = cc

exit_alone :
    (resumed : Bool) (exists : Text → Bool) (key : Text) (code : ℕ) (inst : ChildInstance)
    (s : Service) (effects : List Effect)
    → s.instances ≡ inst ∷ []
    → allowed s.metadata.restart code inst ≡ true
    → IsDead (exit_found resumed exists key code (some (0, inst)) s effects).1.instances
unfolding exit_found exit_at
exit_alone resumed exists key code inst s effects alone may =
    after_restart resumed exists key _ _ _
      (restart_of _ (exit_action-allowed s.metadata.restart code inst ∙ may))
      (exited_first code _ inst s.instances alone)

found_alone :
    (p : ℕ) (inst : ChildInstance) (insts : List ChildInstance)
    → insts ≡ inst ∷ []
    → has_pid p (pid inst) ≡ true
    → found_at p insts ≡ some (0, inst)
unfolding find_by_pid Option.bind
found_alone p inst insts alone h = rw (alone, h) refl

module _ (o : Outside) where
  start-IsStuck :
      (s : Service) (rt : ServiceRuntime) (insts : List ChildInstance)
      → IsDead s.instances
      → s.metadata.singleton ≡ true
      → (spawn_all o.codec o.launch o.resolve o.message o.facets o.registry_key none s rt).0
        ≡ ok insts
      → IsStuck (start_again o rt s)
  unfolding start_service start_unless
  start-IsStuck s rt insts dead single spawned =
      subst
        (λ b.
          IsStuck
            (start_unless o.codec o.launch o.resolve o.message o.facets b o.registry_key s rt).0)
        (sym (ap (λ b. b && s.metadata.singleton) (IsDead-first_is_live s.instances dead)))
        (
          started-IsPhantom o.message o.registry_key _ s insts spawned dead,
          ap (λ m. m.singleton) (started_metadata o.message o.registry_key _ s) ∙ single,
        )

  exit_service-IsDead :
      (s : Service) (inst : ChildInstance) (resumed : Bool) (p code : ℕ) (rt : ServiceRuntime)
      → s.instances ≡ inst ∷ []
      → has_pid p (pid inst) ≡ true
      → allowed s.metadata.restart code inst ≡ true
      → IsDead (exit_service o resumed p code rt s).instances
  unfolding handle_child_exit
  exit_service-IsDead s inst resumed p code rt alone has may =
      let effects = (disarm_watchdog_pid p rt).1 in
      subst (λ f. IsDead (exit_found resumed o.exists o.registry_key code f s effects).1.instances)
        (sym (found_alone p inst s.instances alone has))
        (exit_alone resumed o.exists o.registry_key code inst s effects alone may)

  exit_service_single :
      (s : Service) (resumed : Bool) (p code : ℕ) (rt : ServiceRuntime)
      → s.metadata.singleton ≡ true
      → (exit_service o resumed p code rt s).metadata.singleton ≡ true
  unfolding handle_child_exit
  exit_service_single s resumed p code rt single =
      ap (λ m. m.singleton)
        (exit_found-metadata resumed o.exists o.registry_key code (found_at p s.instances) s
          (disarm_watchdog_pid p rt).1)
      ∙ single

  -- Let a singleton with one instance exit, let its policy ask for a restart and let the spawn of
  -- the start that follows succeed. Then, whatever exits and starts come next, it counts as active
  -- and every start_service leaves it as it is.
  pub singleton_restarts_once :
      (s t : Service) (inst : ChildInstance) (resumed : Bool) (p code : ℕ)
      (rt later : ServiceRuntime) (insts : List ChildInstance)
      → s.metadata.singleton ≡ true
      → s.instances ≡ inst ∷ []
      → has_pid p (pid inst) ≡ true
      → allowed s.metadata.restart code inst ≡ true
      → (spawn_all o.codec o.launch o.resolve o.message o.facets o.registry_key none
          (exit_service o resumed p code rt s)
          later).0
        ≡ ok insts
      → Drift o (start_again o later (exit_service o resumed p code rt s)) t
      → (is_active t.instances ≡ true)
        × ((now : ServiceRuntime)
            → start_service o.codec o.launch o.resolve o.message o.facets o.registry_key t now
              ≡ (t, now, []))
  singleton_restarts_once s t inst resumed p code rt later insts single alone has may spawned
        drift =
      let stuck = Drift-IsStuck o drift (
        start-IsStuck (exit_service o resumed p code rt s) later insts
          (exit_service-IsDead s inst resumed p code rt alone has may)
          (exit_service_single s resumed p code rt single) spawned) in
      (IsPhantom-is_active t.instances stuck.0, λ now. IsStuck-start_service o t now stuck)
