-- ===== src/Services/Exits.antt =====
-- What crates/services/src/services.rs does when a process has exited: `handle_child_exit` and
-- `child_exited`. Whether the dispatch of `resume_fds` succeeds, and which paths exist, are arguments;
-- the transports and the log are left out.
pub mod Restarts
use rind.Prelude.{
  ℕ, suc, Bool, true, false, not, ◌&&◌, ◌||◌, Option, none, some, List, [], ◌∷◌, ◌++◌, map, filter,
  ltb, nat_beq, if◌then◌else◌, get_elem?, nat_eq,
}
use rind.Map
use rind.Map.{Map}
use rind.Text.{Text, codes, text_eq}
use rind.Services.{
  ChildInstance, Service, ServiceRuntime, ServiceMetadata, ServiceState, exited, RestartPolicy,
  always, on_failure, RunOption, RunOptionFile, Effect, run_on_stop, dispatch, remove_path,
}
use rind.Services.Instances.{has_process, is_live, find_by_pid, update_at, as_many}
use rind.Services.Stopping.{disarm_watchdog_pid, instance_key_name}
use mathlib.Core.Option

pub data ServiceExitAction : Type 0 where
  restart stop_dependents : ServiceExitAction

-- the condition of the source's `OnFailure` arm
unfoldable pub may_retry : ℕ → ℕ → ℕ → Bool
may_retry max_retries code retry_count =
    not (nat_beq code 0) && ltb 0 max_retries && ltb retry_count max_retries

-- the action, and whether it counts as a retry
unfoldable pub exit_action : Option RestartPolicy → ℕ → ChildInstance → ServiceExitAction × Bool
unfolding may_retry
exit_action policy code inst =
    if inst.manually_stopped then (stop_dependents, false) else elim policy [
      | some (always true) ↦ (restart, false)
      | some (on_failure max_retries) ↦
          if may_retry max_retries code inst.retry_count
          then (restart, true)
          else (stop_dependents, false)
      | _ ↦ (stop_dependents, false)
    ]

unfoldable pub exit_instance : ℕ → Bool → ChildInstance → ChildInstance
exit_instance code retried inst = record inst {
  state = exited code;
  handle = none;
  retry_count = if retried then suc inst.retry_count else inst.retry_count;
}

abbrev remove_files : (Text → Bool) → List RunOptionFile → List Effect
remove_files exists [] = []
remove_files exists (file ∷ files) =
    (if file.clean && exists file.path then remove_path file.dir file.path ∷ [] else [])
    ++ remove_files exists files

abbrev files_of : RunOption → List RunOptionFile
files_of option = elim option.variable [
  | some v ↦ []
  | none ↦ elim option.files [ none ↦ [] | some files ↦ files ]
]

unfoldable pub clean_files : (Text → Bool) → List RunOption → List Effect
clean_files exists [] = []
clean_files exists (option ∷ options) =
    remove_files exists (files_of option) ++ clean_files exists options

-- what is done where the service is not started again
unfoldable pub exit_effects : (Text → Bool) → ServiceMetadata → Text → List Effect
unfolding clean_files instance_key_name
exit_effects exists m service_key =
    (if m.cleanup then clean_files exists (as_many m.run) else [])
    ++ dispatch (codes "sockets") (codes "clear_for") (instance_key_name service_key)
      ∷ dispatch (codes "sockets") (codes "resume_fds") (instance_key_name service_key)
      ∷ []

unfoldable pub retained : List ChildInstance → List ChildInstance
retained insts = filter (λ inst. is_live inst.state) insts

unfoldable pub after_exit :
    Bool
    → (Text → Bool)
    → Text
    → ServiceExitAction
    → Service
    → List Effect
    → Option ServiceExitAction × Service × List Effect
unfolding exit_effects retained
after_exit resumed exists service_key restart service effects = (some restart, service, effects)
after_exit resumed exists service_key stop_dependents service effects = (
  if resumed then some stop_dependents else none,
  record service { instances = retained service.instances },
  effects ++ exit_effects exists service.metadata service_key,
)

-- `handle_child_exit` once the instance is found
unfoldable pub exit_at :
    Bool
    → (Text → Bool)
    → Text
    → ℕ
    → ℕ
    → ChildInstance
    → Service
    → List Effect
    → Option ServiceExitAction × Service × List Effect
unfolding exit_action exit_instance after_exit
exit_at resumed exists service_key code idx inst service effects =
    let decided = exit_action service.metadata.restart code inst in
    after_exit resumed exists service_key decided.0
      (record service {
        instances = update_at idx (exit_instance code decided.1) service.instances;
        last_state = exited code;
      })
      (effects ++ (if has_process inst.state then run_on_stop ∷ [] else []))

abbrev pub found_at : ℕ → List ChildInstance → Option (ℕ × ChildInstance)
found_at pid insts =
    Option.bind (find_by_pid pid insts)
      (λ idx. Option.map (λ inst. (idx, inst)) (get_elem? insts idx))

unfoldable pub exit_found :
    Bool
    → (Text → Bool)
    → Text
    → ℕ
    → Option (ℕ × ChildInstance)
    → Service
    → List Effect
    → Option ServiceExitAction × Service × List Effect
unfolding exit_at
exit_found resumed exists service_key code none service effects = (none, service, effects)
exit_found resumed exists service_key code (some (idx, inst)) service effects =
    exit_at resumed exists service_key code idx inst service effects

unfoldable pub handle_child_exit :
    Bool
    → (Text → Bool)
    → Text
    → ℕ
    → ℕ
    → Service
    → ServiceRuntime
    → (Option ServiceExitAction × Service × List Effect) × ServiceRuntime
unfolding exit_found
handle_child_exit resumed exists service_key pid code service rt =
    let disarmed = disarm_watchdog_pid pid rt in
    (
      exit_found resumed exists service_key code (found_at pid service.instances) service
          disarmed.1,
      disarmed.0,
    )

pub data ServiceEventKind : Type 0 where
  started stopped failed : ServiceEventKind
  exited_with : ℕ → ServiceEventKind

abbrev event_of : Text → ℕ → Option ServiceExitAction → Option (Text × ServiceEventKind)
event_of key code none = none
event_of key code (some restart) = some (key, started)
event_of key code (some stop_dependents) = some (key, exited_with code)

abbrev or_last {ℓ} : {A : Type ℓ} → Option A → Option A → Option A
or_last last none = last
or_last last (some a) = some a

-- the loop over the services of a key; the last action counts
unfoldable pub exit_each :
    Bool
    → (Text → Bool)
    → Text
    → ℕ
    → ℕ
    → Option (Text × ServiceEventKind)
    → List Service
    → ServiceRuntime
    → Option (Text × ServiceEventKind) × List Service × ServiceRuntime × List Effect
unfolding handle_child_exit
exit_each resumed exists key pid code last [] rt = (last, [], rt, [])
exit_each resumed exists key pid code last (service ∷ services) rt =
    let first = handle_child_exit resumed exists key pid code service rt in
    let rest =
      exit_each resumed exists key pid code (or_last last (event_of key code first.0.0)) services
        first.1 in
    (rest.0, first.0.1 ∷ rest.1, rest.2, first.0.2 ++ rest.3)

abbrev Registered : Type 0
Registered = Map Text (List Service)

-- `child_exited`: the action to take next, `__runtime_start` where it is `started` and `reconcile`
-- where it is another
unfoldable pub child_exited :
    Bool
    → (Text → Bool)
    → ℕ
    → ℕ
    → Registered
    → ServiceRuntime
    → Option (Text × ServiceEventKind) × Registered × ServiceRuntime × List Effect
unfolding exit_each
child_exited resumed exists pid code registered rt = elim (Map.get pid rt.pid_map) [
  | none ↦ (none, registered, rt, [])
  | some key ↦
      let forgotten = record rt {
        pid_map = Map.remove pid rt.pid_map;
        stopping_map = Map.remove pid rt.stopping_map;
      } in
      elim (Map.get key registered) [
        | none ↦ (none, registered, forgotten, [])
        | some services ↦
            let exits = exit_each resumed exists key pid code none services forgotten in
            (exits.0, Map.insert key exits.1 registered, exits.2, exits.3)
      ]
]
