-- ===== src/Services/Stopping.antt =====
-- The stops of crates/services/src/services.rs: `disarm_watchdog_pid`, `stop_service_instance`,
-- `stop_service`, `watchdog_expired` and `timeout_sweep`. The time is an argument.
pub mod Marked
pub mod Swept
use rind.Prelude.{
  ℕ, zero, suc, ◌-◌, Bool, true, false, not, ◌&&◌, ◌||◌, Option, none, some, List, [], ◌∷◌, ◌++◌,
  map, any, ltb, if◌then◌else◌, ◌==◌, nat_eq,
}
use rind.Map
use rind.Map.{Map}
use rind.Text.{Text, codes, text_eq}
use rind.Text.Split.{split, contains}
use rind.Services.{
  ChildInstance, InstanceHandle, Service, ServiceRuntime, StopMode, graceful, force_kill,
  ServiceState, active, inactive, stopping, Signal, sigterm, sigkill, Effect, kill, run_on_stop,
  notify, dispatch, kill_group, close_timer,
}
use rind.Services.Instances.{is_active_state, update_at}
use mathlib.Core.Option

abbrev first_part : Text → List Text → Text
first_part key [] = key
first_part key (p ∷ ps) = p

unfoldable pub instance_key_name : Text → Text
instance_key_name key = first_part key (split b'@' key)

unfoldable pub ensure_scoped_name : Text → Text
ensure_scoped_name name = if contains (codes "@") name then name else name ++ codes "@static"

unfoldable pub disarm_watchdog_pid : ℕ → ServiceRuntime → ServiceRuntime × List Effect
disarm_watchdog_pid pid rt = elim (Map.get pid rt.watchdog_pids) [
  | none ↦ (rt, [])
  | some fd ↦ (
    record rt {
      watchdog_pids = Map.remove pid rt.watchdog_pids;
      watchdog_fds = Map.remove fd rt.watchdog_fds;
    },
    close_timer fd ∷ [],
  )
]

-- an instance that has a user is that user's, one that has none is its key's
unfoldable pub matches_owner : Text → ChildInstance → Bool
matches_owner name inst = elim inst.user [ none ↦ inst.key == name | some u ↦ u == name ]

-- the early returns of `stop_service_instance`
unfoldable pub selected : Option Text → Option Text → ChildInstance → Bool
unfolding matches_owner
selected key user inst =
    elim key [ none ↦ true | some k ↦ inst.key == k ]
    && elim user [ none ↦ true | some u ↦ matches_owner u inst ]

abbrev pub signal_of : StopMode → Signal
signal_of force_kill = sigkill
signal_of graceful = sigterm

-- an instance whose process was sent a signal, and one that has no process
abbrev pub mark_stopping : ℕ → ChildInstance → ChildInstance
mark_stopping now inst = record inst {
  state = stopping;
  stop_time = some now;
  manually_stopped = true;
}

abbrev pub mark_inactive : ChildInstance → ChildInstance
mark_inactive inst = record inst { state = inactive }

unfoldable pub note_stopping : ℕ → Option ℕ → ServiceRuntime → ServiceRuntime × List Effect
unfolding disarm_watchdog_pid
note_stopping now none rt = (rt, [])
note_stopping now (some pid) rt =
    let disarmed = disarm_watchdog_pid pid rt in
    (record disarmed.0 { stopping_map = Map.insert pid now rt.stopping_map }, disarmed.1)

unfoldable pub stop_selected :
    ℕ
    → StopMode
    → ChildInstance
    → ServiceRuntime
    → Option InstanceHandle
    → ChildInstance × ServiceRuntime × List Effect
unfolding note_stopping is_active_state
stop_selected now mode inst rt (some handle) =
    let noted = note_stopping now handle.pid rt in
    (mark_stopping now inst, noted.0, kill handle (signal_of mode) ∷ noted.1)
stop_selected now mode inst rt none =
    (mark_inactive inst, rt, if is_active_state inst.state then run_on_stop ∷ [] else [])

unfoldable pub stop_service_instance :
    ℕ
    → StopMode
    → Option Text
    → Option Text
    → ChildInstance
    → ServiceRuntime
    → ChildInstance × ServiceRuntime × List Effect
unfolding selected stop_selected
stop_service_instance now mode key user inst rt =
    if selected key user inst then stop_selected now mode inst rt inst.handle else (inst, rt, [])

-- the instances one after the other
unfoldable pub stop_each :
    ℕ
    → StopMode
    → Option Text
    → Option Text
    → List ChildInstance
    → ServiceRuntime
    → List ChildInstance × ServiceRuntime × List Effect
unfolding stop_service_instance
stop_each now mode key user [] rt = ([], rt, [])
stop_each now mode key user (inst ∷ insts) rt =
    let first = stop_service_instance now mode key user inst rt in
    let rest = stop_each now mode key user insts first.1 in
    (first.0 ∷ rest.0, rest.1, first.2 ++ rest.2)

-- the instance at an index, where there is one
unfoldable pub stop_nth :
    ℕ
    → StopMode
    → Option Text
    → Option Text
    → ℕ
    → List ChildInstance
    → ServiceRuntime
    → List ChildInstance × ServiceRuntime × List Effect
unfolding stop_service_instance
stop_nth now mode key user index [] rt = ([], rt, [])
stop_nth now mode key user zero (inst ∷ insts) rt =
    let first = stop_service_instance now mode key user inst rt in
    (first.0 ∷ insts, first.1, first.2)
stop_nth now mode key user (suc index) (inst ∷ insts) rt =
    let rest = stop_nth now mode key user index insts rt in (inst ∷ rest.0, rest.1, rest.2)

unfoldable pub stop_instances :
    ℕ
    → StopMode
    → Option Text
    → Option Text
    → Option ℕ
    → List ChildInstance
    → ServiceRuntime
    → List ChildInstance × ServiceRuntime × List Effect
unfolding stop_each stop_nth
stop_instances now mode key user none insts rt = stop_each now mode key user insts rt
stop_instances now mode key user (some index) insts rt = stop_nth now mode key user index insts rt

abbrev or_name : Option Text → Text → Text
or_name none name = name
or_name (some key) name = key

-- what is dispatched once no instance is active
unfoldable pub stop_effects : Text → Bool → List Effect
unfolding instance_key_name
stop_effects name has_notifier =
    dispatch (codes "sockets") (codes "clear_for") (instance_key_name name)
    ∷ dispatch (codes "services") (codes "reconcile_stacks") name
    ∷ dispatch (codes "timer") (codes "reconcile_timers") name
    ∷ (if has_notifier then notify ∷ [] else [])

unfoldable pub settle : Text → Bool → Service → List Effect → Service × List Effect
unfolding stop_effects
settle name has_notifier service effects =
    if any (λ x. is_active_state x.state) service.instances
    then (service, effects)
    else (record service { last_state = stopping }, effects ++ stop_effects name has_notifier)

unfoldable pub stop_service :
    ℕ
    → StopMode
    → Option Text
    → Option Text
    → Option ℕ
    → Option Text
    → Bool
    → Service
    → ServiceRuntime
    → Service × ServiceRuntime × List Effect
unfolding stop_instances settle
stop_service now mode key user index service_key has_notifier service rt =
    let stopped = stop_instances now mode key user index service.instances rt in
    let settled =
      settle (or_name service_key service.metadata.name) has_notifier
        (record service { instances = stopped.0 }) stopped.2 in
    (settled.0, stopped.1, settled.1)

-- `timeout_sweep`: what is still stopping after the timeout is killed
unfoldable pub expired : ℕ → ℕ → ℕ → Bool
expired now timeout stop_time = ltb timeout (now - stop_time)

unfoldable pub expired_pids : ℕ → ℕ → Map ℕ ℕ → List ℕ
unfolding expired
expired_pids now timeout [] = []
expired_pids now timeout ((pid, stop_time) ∷ rest) =
    let pids = expired_pids now timeout rest in
    if expired now timeout stop_time then pid ∷ pids else pids

unfoldable pub kill_each : List ℕ → Map ℕ ℕ → Map ℕ ℕ × List Effect
kill_each [] m = (m, [])
kill_each (pid ∷ pids) m =
    let rest = kill_each pids (Map.remove pid m) in (rest.0, kill_group pid ∷ rest.1)

unfoldable pub timeout_sweep : ℕ → ℕ → ServiceRuntime → ServiceRuntime × List Effect
unfolding expired_pids kill_each
timeout_sweep now timeout rt =
    let swept = kill_each (expired_pids now timeout rt.stopping_map) rt.stopping_map in
    (record rt { stopping_map = swept.0 }, swept.1)
