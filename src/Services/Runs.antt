-- ===== src/Services/Runs.antt =====
-- How the exits, starts and stops of a service in crates/services/src/services.rs follow on each
-- other, as a step relation. Each step may find any state of the runtime.
pub mod Fresh
pub mod Retries
pub mod Phantom
pub mod Stuck
use rind.Prelude.{ℕ, Bool, Option, ◌≡◌}
use rind.Text.{Text}
use rind.Payload.{JsonCodec}
use rind.Facets.{Facets}
use rind.Error.{CoreError, CoreResult}
use rind.Services.{Service, ServiceRuntime, ServiceBranchContext, RunOption, StopMode}
use rind.Services.Starting.{Launched, start_service}
use rind.Services.Stopping.{stop_service}
use rind.Services.Exits.{handle_child_exit}

-- What the steps take from outside of the runtime.
pub record Outside : Type 0 where
  pub codec : JsonCodec
  pub launch : RunOption → Option ServiceBranchContext → CoreResult Launched
  pub resolve : RunOption → RunOption
  pub message : CoreError → Text
  pub facets : Option Facets
  pub exists : Text → Bool
  pub registry_key : Text

module _ (o : Outside) where
  abbrev pub exit_service : Bool → ℕ → ℕ → ServiceRuntime → Service → Service
  exit_service resumed pid code rt s =
      (handle_child_exit resumed o.exists o.registry_key pid code s rt).0.1

  abbrev pub start_again : ServiceRuntime → Service → Service
  start_again rt s =
      (start_service o.codec o.launch o.resolve o.message o.facets o.registry_key s rt).0

  -- A step that nobody asks for: a process exits, or the service is started.
  pub data Unattended (s : Service) (t : Service) : Type 0 where
    exits :
        (resumed : Bool) (pid code : ℕ) (rt : ServiceRuntime)
        → t ≡ exit_service resumed pid code rt s
        → Unattended s t
    starts : (rt : ServiceRuntime) → t ≡ start_again rt s → Unattended s t

  pub data Step (s : Service) (t : Service) : Type 0 where
    by_itself : Unattended s t → Step s t
    stops :
        (now : ℕ) (mode : StopMode) (key user : Option Text) (index : Option ℕ) (n : Bool)
        (rt : ServiceRuntime)
        → t ≡ (stop_service now mode key user index (Option.some o.registry_key) n s rt).0
        → Step s t

  pub data Reach (s : Service) : Service → Type 0 where
    here : Reach s s
    next : {t u : Service} → Reach s t → Step t u → Reach s u

  pub data Drift (s : Service) : Service → Type 0 where
    here : Drift s s
    next : {t u : Service} → Drift s t → Unattended t u → Drift s u
