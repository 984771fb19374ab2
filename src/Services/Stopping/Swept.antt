-- ===== src/Services/Stopping/Swept.antt =====
-- A process that was asked to stop is killed by the first sweep after the timeout, unless it has
-- exited before.
use rind.Prelude.{
  ℕ, ◌+◌, ◌<◌, ◌≡◌, refl, ap, ◌∙◌, arith, ◌⊎◌, inl, inr, Bool, true, Option, none, some, List, [],
  ◌∷◌, map, if◌then◌else◌, ◌==◌, ==_iff, nat_eq, Bool-cases,
}
use rind.Map
use rind.Map.{Map, get-insert, get-remove}
use rind.Set
use rind.Set.{contains-nil}
use rind.Text.{Text}
use rind.Services.{
  ChildInstance, InstanceHandle, Service, ServiceRuntime, StopMode, Effect, kill_group,
}
use rind.Services.Instances.{pid, pids, cons_some}
use rind.Services.Stopping.{
  selected, stop_selected, note_stopping, stop_service_instance, stop_each, stop_instances,
  stop_service, expired, expired_pids, kill_each, timeout_sweep,
}
use mathlib.Core.Option

expired_pids-contains :
    (now timeout p t : ℕ) (m : Map ℕ ℕ)
    → Map.get p m ≡ some t
    → expired now timeout t ≡ true
    → Set.contains p (expired_pids now timeout m) ≡ true
unfolding Map.get expired_pids Set.contains expired
expired_pids-contains now timeout p t [] h x = cc
expired_pids-contains now timeout p t ((q, u) ∷ m) h x =
    ground (arith, expired_pids-contains now timeout p t m)

kill_each-effects : (ps : List ℕ) (m : Map ℕ ℕ) → (kill_each ps m).1 ≡ map kill_group ps
unfolding kill_each
kill_each-effects [] m = refl
kill_each-effects (p ∷ ps) m = rw (kill_each-effects ps (Map.remove p m)) refl

get-kill_each :
    (p : ℕ) (ps : List ℕ) (m : Map ℕ ℕ)
    → Map.get p (kill_each ps m).0 ≡ (if Set.contains p ps then none else Map.get p m)
unfolding kill_each Set.contains
get-kill_each p [] m = refl
get-kill_each p (q ∷ ps) m = ground (arith, get-kill_each p ps (Map.remove q m), get-remove q p m)

-- the sweep kills the process and forgets it
abbrev pub Killed : ℕ → ServiceRuntime × List Effect → Type 0
Killed p swept =
    (Map.get p swept.0.stopping_map ≡ none)
    × ((ps : List ℕ) × (swept.1 ≡ map kill_group ps) × (Set.contains p ps ≡ true))

late_expired : (now timeout t : ℕ) → t + timeout < now → expired now timeout t ≡ true
unfolding expired
late_expired now timeout t h = ground arith

timeout_sweep-Killed :
    (now timeout p t : ℕ) (rt : ServiceRuntime)
    → Map.get p rt.stopping_map ≡ some t
    → t + timeout < now
    → Killed p (timeout_sweep now timeout rt)
unfolding timeout_sweep expired
timeout_sweep-Killed now timeout p t rt h late =
    let found =
      expired_pids-contains now timeout p t rt.stopping_map h (late_expired now timeout t late) in
    (
      get-kill_each p (expired_pids now timeout rt.stopping_map) rt.stopping_map ∙ rw found refl,
      (
        expired_pids now timeout rt.stopping_map,
        kill_each-effects (expired_pids now timeout rt.stopping_map) rt.stopping_map,
        found,
      ),
    )

-- what a stop notes for a process
note_stopping-notes :
    (now p : ℕ) (o : Option ℕ) (rt : ServiceRuntime)
    → o ≡ some p
    → Map.get p (note_stopping now o rt).0.stopping_map ≡ some now
unfolding note_stopping
note_stopping-notes now p none rt h = cc
note_stopping-notes now p (some q) rt h = ground (arith, get-insert q p now rt.stopping_map)

note_stopping-keeps :
    (now p : ℕ) (o : Option ℕ) (rt : ServiceRuntime)
    → Map.get p rt.stopping_map ≡ some now
    → Map.get p (note_stopping now o rt).0.stopping_map ≡ some now
unfolding note_stopping
note_stopping-keeps now p none rt h = h
note_stopping-keeps now p (some q) rt h = ground (arith, get-insert q p now rt.stopping_map)

instance_notes :
    (now p : ℕ) (mode : StopMode) (inst : ChildInstance) (rt : ServiceRuntime)
    (o : Option InstanceHandle)
    → Option.bind o (λ h. h.pid) ≡ some p
    → Map.get p (stop_selected now mode inst rt o).1.stopping_map ≡ some now
unfolding stop_selected Option.bind
instance_notes now p mode inst rt none h = cc
instance_notes now p mode inst rt (some handle) h = note_stopping-notes now p handle.pid rt h

instance_keeps :
    (now p : ℕ) (mode : StopMode) (inst : ChildInstance) (rt : ServiceRuntime)
    (o : Option InstanceHandle)
    → Map.get p rt.stopping_map ≡ some now
    → Map.get p (stop_selected now mode inst rt o).1.stopping_map ≡ some now
unfolding stop_selected
instance_keeps now p mode inst rt none h = h
instance_keeps now p mode inst rt (some handle) h = note_stopping-keeps now p handle.pid rt h

each_keeps :
    (now p : ℕ) (mode : StopMode) (insts : List ChildInstance) (rt : ServiceRuntime)
    → Map.get p rt.stopping_map ≡ some now
    → Map.get p (stop_each now mode none none insts rt).1.stopping_map ≡ some now
unfolding stop_each stop_service_instance selected
each_keeps now p mode [] rt h = h
each_keeps now p mode (inst ∷ insts) rt h =
    each_keeps now p mode insts _ (instance_keeps now p mode inst rt inst.handle h)

contains-cons_some :
    (p : ℕ) (o : Option ℕ) (ps : List ℕ)
    → Set.contains p (cons_some o ps) ≡ true
    → (o ≡ some p) ⊎ (Set.contains p ps ≡ true)
unfolding Set.contains
contains-cons_some p none ps h = inr h
contains-cons_some p (some q) ps h = elim (Bool-cases (q == p)) [
  | inl e ↦ inl (ap some ((==_iff q p).0 e))
  | inr e ↦ inr (ground (arith, e))
]

each_notes :
    (now p : ℕ) (mode : StopMode) (insts : List ChildInstance) (rt : ServiceRuntime)
    → Set.contains p (pids insts) ≡ true
    → Map.get p (stop_each now mode none none insts rt).1.stopping_map ≡ some now
unfolding stop_each stop_service_instance selected pids pid
each_notes now p mode [] rt h = absurd (ground (arith, contains-nil p))
each_notes now p mode (inst ∷ insts) rt h = elim (contains-cons_some p (pid inst) (pids insts) h) [
  | inl e ↦ each_keeps now p mode insts _ (instance_notes now p mode inst rt inst.handle e)
  | inr m ↦ each_notes now p mode insts _ m
]

-- After a stop of all instances of a service, a sweep later than the timeout kills the process
-- group of each of their processes and forgets it.
pub stop_service-timeout_sweep :
    (start later timeout p : ℕ) (mode : StopMode) (service_key : Option Text) (n : Bool)
    (service : Service) (rt : ServiceRuntime)
    → Set.contains p (pids service.instances) ≡ true
    → start + timeout < later
    → Killed p (
        timeout_sweep later timeout
          (stop_service start mode none none none service_key n service rt).1)
unfolding stop_service stop_instances
stop_service-timeout_sweep start later timeout p mode service_key n service rt h late =
    timeout_sweep-Killed later timeout p start _ (each_notes start p mode service.instances rt h)
      late
