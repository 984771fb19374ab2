-- ===== src/Services.antt =====
-- crates/services/src/services.rs: what a service is configured with, its instances and the state of
-- `ServiceRuntime`. A service's metadata has the fields that the modelled operations read; the
-- channels to the processes, the transports and the executors are left out. Effects are values.
pub mod Instances
pub mod Isolation
pub mod Branching
pub mod Accounts
pub mod Stopping
pub mod Exits
pub mod Starting
pub mod Runs
pub mod Order
pub mod Timers
pub mod Triggering
pub mod Requests
pub mod Stops
use rind.Prelude.{ℕ, Bool, Option, none, some, List, []}
use rind.Map.{Map}
use rind.Text.{Text}
use rind.Payload.{FlowPayload}

pub record RunOptionFile : Type 0 where
  pub path : Text
  pub dir : Bool
  pub clean : Bool

pub record RunOption : Type 0 where
  pub exec : Text
  pub args : List Text
  pub variable : Option Text
  pub files : Option (List RunOptionFile)

pub data RunOptions : Type 0 where
  one : RunOption → RunOptions
  many : List RunOption → RunOptions

-- `Bool` and `OnFailure`
pub data RestartPolicy : Type 0 where
  always : Bool → RestartPolicy
  on_failure : (max_retries : ℕ) → RestartPolicy

pub data StopMode : Type 0 where
  graceful force_kill : StopMode

pub data ServiceState : Type 0 where
  active inactive starting stopping : ServiceState
  -- the exit code, an `i32` of which only being zero matters, as its 32 bits
  exited : ℕ → ServiceState
  error : Text → ServiceState

-- `dyn InstanceHandle`: the process of an executor
pub record InstanceHandle : Type 0 where
  pub pid : Option ℕ

-- `Instant` is a number of seconds.
pub record ChildInstance : Type 0 where
  pub key : Text
  pub user : Option Text
  pub handle : Option InstanceHandle
  pub state : ServiceState
  pub retry_count : ℕ
  pub stop_time : Option ℕ
  pub manually_stopped : Bool

pub record BranchingConfig : Type 0 where
  pub source : Text
  pub key : Option Text
  pub max_instances : Option ℕ
  pub only : Option (List Text)
  pub except : Option (List Text)

pub record ServiceUserSource : Type 0 where
  pub facet : Option Text
  pub branch : Bool
  pub username_field : Text
  pub match_branch_key : Option Text

pub record ServiceCgroup : Type 0 where
  pub path : Option Text
  pub memory_max : Option Text
  pub cpu_max : Option Text
  pub pids_max : Option Text

pub record ServiceNamespaces : Type 0 where
  pub mount : Bool
  pub uts : Bool
  pub ipc : Bool
  pub net : Bool
  pub pid : Bool
  pub user : Bool
  pub cgroup : Bool
  pub mount_private : Bool
  pub rootfs : Option Text
  pub hostname : Option Text
  pub persist : Bool
  pub init : Bool

pub record CapabilityPolicy : Type 0 where
  pub drop : List Text
  pub keep : List Text

pub record SeccompPolicy : Type 0 where
  pub profile : Option Text
  pub path : Option Text

pub record ServiceIsolation : Type 0 where
  pub scope : Option Text
  pub cgroup : Option ServiceCgroup
  pub namespaces : Option ServiceNamespaces
  pub capabilities : Option CapabilityPolicy
  pub seccomp : Option SeccompPolicy

pub data ServiceSpace : Type 0 where
  system user : ServiceSpace
  user_selective : Text → ServiceSpace

pub record ServiceMetadata : Type 0 where
  pub name : Text
  pub run : RunOptions
  pub space : ServiceSpace
  pub singleton : Bool
  pub cleanup : Bool
  pub user_source : Option ServiceUserSource
  pub restart : Option RestartPolicy
  pub cgroup : Option ServiceCgroup
  pub namespaces : Option ServiceNamespaces

pub record Service : Type 0 where
  pub metadata : ServiceMetadata
  pub instances : List ChildInstance
  pub last_state : ServiceState

-- `Service::new`
unfoldable pub new : ServiceMetadata → Service
new metadata = record { metadata = metadata; instances = []; last_state = inactive }

pub record ServiceBranchContext : Type 0 where
  pub key : Option Text
  pub payload : Option FlowPayload
  pub forced_user : Option Text

pub record WatchdogBinding : Type 0 where
  pub service_key : Text
  pub branch : Option Text
  pub user : Option Text
  pub pid : ℕ

pub record ServiceRuntime : Type 0 where
  pub pid_map : Map ℕ Text
  pub stopping_map : Map ℕ ℕ
  pub watchdog_fds : Map ℕ WatchdogBinding
  pub watchdog_pids : Map ℕ ℕ

pub data Signal : Type 0 where
  sigterm sigkill : Signal

pub data Effect : Type 0 where
  kill : InstanceHandle → Signal → Effect
  run_on_start run_on_stop notify : Effect
  -- a runtime, its action and the name of what it acts on
  dispatch : Text → Text → Text → Effect
  -- the end of a file or, where it says so, of a directory
  remove_path : Bool → Text → Effect
  -- `SIGKILL` for the group of a process
  kill_group : ℕ → Effect
  -- the timer of a file descriptor is closed
  close_timer : ℕ → Effect
