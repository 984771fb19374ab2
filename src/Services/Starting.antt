-- ===== src/Services/Starting.antt =====
-- The starts of crates/services/src/services.rs: `spawn_all`, `start_service` and the action `start`
-- once the service is found. What an executor launches is a parameter, as is the reading of a run
-- option out of a variable; the transports and the log are left out.
use rind.Prelude.{
  ℕ, Bool, true, false, ◌&&◌, Option, none, some, List, [], ◌∷◌, ◌++◌, map, any, if◌then◌else◌,
  ◌==◌, nat_eq,
}
use rind.Map
use rind.Text.{Text, codes, text_eq}
use rind.Payload.{JsonCodec, to_string_payload}
use rind.Facets.{Facets}
use rind.Error.{CoreError, CoreResult, ok, err}
use rind.Services.{
  ChildInstance, InstanceHandle, Service, ServiceRuntime, ServiceState, active, error, RunOption,
  ServiceBranchContext, Effect, run_on_start, dispatch,
}
use rind.Services.Instances.{new_instance, is_active_state, is_running, is_live, as_many}
use rind.Services.Stopping.{instance_key_name}
use mathlib.Core.Option

-- What `spawn_process` has of a process: the user, the handle and the timer of a watchdog.
pub record Launched : Type 0 where
  pub user : Option Text
  pub handle : InstanceHandle
  pub timer : Option ℕ

-- the entries of `arm_watchdog_timer`
unfoldable pub arm_watchdog : Text → Option Text → Launched → ℕ → ServiceRuntime → ServiceRuntime
arm_watchdog registry_key branch l pid rt = elim l.timer [
  | none ↦ rt
  | some fd ↦ record rt {
    watchdog_fds =
        Map.insert fd
          (record { service_key = registry_key; branch = branch; user = l.user; pid = pid })
          rt.watchdog_fds;
    watchdog_pids = Map.insert pid fd rt.watchdog_pids;
  }
]

unfoldable pub note_process :
    Text → Option Text → Launched → Option ℕ → ServiceRuntime → ServiceRuntime
unfolding arm_watchdog
note_process registry_key branch l none rt = rt
note_process registry_key branch l (some pid) rt =
    arm_watchdog registry_key branch l pid
      (record rt { pid_map = Map.insert pid registry_key rt.pid_map })

abbrev key_of : Option ServiceBranchContext → Option Text
key_of ctx = Option.bind ctx (λ c. c.key)

abbrev or_empty : Option Text → Text
or_empty none = []
or_empty (some t) = t

abbrev pub cons_ok {ℓ} : {A : Type ℓ} → A → CoreResult (List A) → CoreResult (List A)
cons_ok x (err e) = err e
cons_ok x (ok xs) = ok (x ∷ xs)

module _ (launch : RunOption → Option ServiceBranchContext → CoreResult Launched)
    (resolve : RunOption → RunOption) where
  -- the loop of `spawn_all`: an error drops the instances that were made before it
  unfoldable pub spawn_each :
      Text
      → Option ServiceBranchContext
      → List RunOption
      → ServiceRuntime
      → CoreResult (List ChildInstance) × ServiceRuntime
  spawn_each registry_key ctx [] rt = (ok [], rt)
  spawn_each registry_key ctx (run ∷ runs) rt = elim (launch (resolve run) ctx) [
    | err e ↦ (err e, rt)
    | ok l ↦
        let rest =
          spawn_each registry_key ctx runs
            (note_process registry_key (key_of ctx) l l.handle.pid rt) in
        (cons_ok (new_instance (or_empty (key_of ctx)) l.user (some l.handle)) rest.0, rest.1)
  ]

-- whether the service is among the inactive ones
unfoldable pub is_inactive : JsonCodec → Option Facets → Text → Bool
is_inactive codec none registry_key = false
is_inactive codec (some facets) registry_key =
    any (λ x. to_string_payload codec x.payload == instance_key_name registry_key)
      (Map.get_or (codes "rind:inactive") [] facets)

abbrev pub with_state : ServiceState → ChildInstance → ChildInstance
with_state s inst = record inst { state = s }

-- `as_one_mut` and a new state
unfoldable pub set_first : ServiceState → List ChildInstance → List ChildInstance
set_first s [] = []
set_first s (inst ∷ insts) = with_state s inst ∷ insts

unfoldable pub first_is_live : List ChildInstance → Bool
first_is_live [] = false
first_is_live (inst ∷ insts) = is_live inst.state

abbrev on_start : List ChildInstance → List Effect
on_start [] = []
on_start (inst ∷ insts) = run_on_start ∷ []

-- every instance is active
unfoldable pub set_all : ServiceState → List ChildInstance → List ChildInstance
set_all s insts = map (with_state s) insts

-- the instances that are not active have the error
unfoldable pub set_inactive : ServiceState → List ChildInstance → List ChildInstance
set_inactive s insts =
    map (λ inst. if is_active_state inst.state then inst else with_state s inst) insts

unfoldable pub start_effects : Text → List Effect
start_effects registry_key =
    dispatch (codes "services") (codes "reconcile_stacks") registry_key
    ∷ dispatch (codes "timer") (codes "reconcile_timers") registry_key
    ∷ []

-- what `start_service` does with the outcome of `spawn_service`
unfoldable pub started_with :
    (CoreError → Text) → Text → CoreResult (List ChildInstance) → Service → Service × List Effect
unfolding set_first start_effects
started_with message registry_key (ok insts) service = (
  record service { instances = set_first active (service.instances ++ insts) },
  on_start (service.instances ++ insts) ++ start_effects registry_key,
)
started_with message registry_key (err e) service = (
  record service {
    last_state = error (message e);
    instances = set_first (error (message e)) service.instances;
  },
  [],
)

module _ (codec : JsonCodec)
    (launch : RunOption → Option ServiceBranchContext → CoreResult Launched)
    (resolve : RunOption → RunOption) (message : CoreError → Text) (facets : Option Facets) where
  unfoldable pub spawn_all :
      Text
      → Option ServiceBranchContext
      → Service
      → ServiceRuntime
      → CoreResult (List ChildInstance) × ServiceRuntime
  unfolding spawn_each is_inactive
  spawn_all registry_key ctx service rt =
      if is_inactive codec facets registry_key
      then (ok [], rt)
      else spawn_each launch resolve registry_key ctx (as_many service.metadata.run) rt

  -- nothing for a singleton that is there already
  unfoldable pub start_unless :
      Bool → Text → Service → ServiceRuntime → Service × ServiceRuntime × List Effect
  unfolding spawn_all started_with
  start_unless true registry_key service rt = (service, rt, [])
  start_unless false registry_key service rt =
      let spawned = spawn_all registry_key none service rt in
      let done = started_with message registry_key spawned.0 service in (done.0, spawned.1, done.1)

  unfoldable pub start_service :
      Text → Service → ServiceRuntime → Service × ServiceRuntime × List Effect
  unfolding start_unless
  start_service registry_key service rt =
      start_unless (first_is_live service.instances && service.metadata.singleton) registry_key
        service rt

  unfoldable pub runs_branch : Option Text → List ChildInstance → Bool
  runs_branch none insts = false
  runs_branch (some key) insts = any (λ i. i.key == key && is_running i.state) insts

  -- The three arms of `start`, each with whether the stacks and timers are reconciled after it.
  unfoldable pub branch_started :
      CoreResult (List ChildInstance) → Service → Service × List Effect × Bool
  unfolding set_all set_inactive
  branch_started (ok insts) service = (
    record service { instances = set_all active (service.instances ++ insts) },
    on_start (service.instances ++ insts),
    true,
  )
  branch_started (err e) service =
      (record service { instances = set_inactive (error (message e)) service.instances }, [], false)

  unfoldable pub user_started :
      CoreResult (List ChildInstance) → Service → Service × List Effect × Bool
  unfolding set_first
  user_started (ok insts) service = (
    record service { instances = set_first active (service.instances ++ insts) },
    on_start (service.instances ++ insts),
    true,
  )
  user_started (err e) service =
      (record service { instances = set_first (error (message e)) service.instances }, [], false)

  abbrev forced : Text → ServiceBranchContext
  forced name = record { key = none; payload = none; forced_user = some name }

  unfoldable pub start :
      Text
      → Option Text
      → Option ServiceBranchContext
      → Service
      → ServiceRuntime
      → Service × ServiceRuntime × List Effect × Bool
  unfolding runs_branch branch_started user_started spawn_all start_service
  start service_key only_user (some ctx) service rt =
      if runs_branch ctx.key service.instances
      then (service, rt, [], false)
      else let spawned = spawn_all service_key (some ctx) service rt in
        let done = branch_started spawned.0 service in (done.0, spawned.1, done.1, done.2)
  start service_key (some name) none service rt =
      let spawned = spawn_all service_key (some (forced name)) service rt in
      let done = user_started spawned.0 service in (done.0, spawned.1, done.1, done.2)
  start service_key none none service rt =
      let done = start_service service_key service rt in (done.0, done.1, done.2, true)
