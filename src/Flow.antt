-- ===== src/Flow.antt =====
-- The types of crates/flow/src/flow.rs: the declarations of facets, the events, and the state that
-- `FlowRuntime` works on. What it publishes is handed to the dispatcher, which is a list here.
pub mod Payloads
pub mod Entry
pub mod Reconcile
pub mod Run
pub mod Index
pub mod Impulses
pub mod Actions
use rind.Prelude.{ℕ, Bool, true, false, Option, none, some, List, [], ◌∷◌}
use rind.Map.{Map}
use rind.Text.{Text}
use rind.Error.{CoreError}
use rind.Json.{Json}
use rind.Payload.{FlowPayload}
use rind.Matching.{FlowMatchOperation, FlowPayloadType, FlowItem, FlowInstance, FlowType}
use rind.Facets.{Facets}

pub data FlowAction : Type 0 where
  apply revert : FlowAction

pub data AutoPayloadInsert : Type 0 where
  one : Text → AutoPayloadInsert
  many : List Text → AutoPayloadInsert

-- The fields `eval` and `args` are not read.
pub record AutoPayloadConfig : Type 0 where
  pub variable : Option Text
  pub insert : Option AutoPayloadInsert
  pub many : Bool

pub data InverseBranchingConfig : Type 0 where
  simple : Text → InverseBranchingConfig
  -- the fields `name` and `branch`
  detailed : Text → Option Text → InverseBranchingConfig

-- `InverseBranchingConfig::name` and `branch`
unfoldable pub config_name : InverseBranchingConfig → Text
config_name (InverseBranchingConfig.simple name) = name
config_name (InverseBranchingConfig.detailed name branch) = name

unfoldable pub config_branch : InverseBranchingConfig → Option Text
config_branch (InverseBranchingConfig.simple name) = none
config_branch (InverseBranchingConfig.detailed name branch) = branch

-- The fields that the runtime reads; a subscriber is its `transport_id`.
pub record FlowFacet : Type 0 where
  pub name : Text
  pub payload : FlowPayloadType
  pub stop_on : Option (List InverseBranchingConfig)
  pub after : Option (List FlowItem)
  pub branch : Option (List Text)
  pub auto_payload : Option AutoPayloadConfig
  pub subscribers : Option (List Text)

pub record FlowImpulse : Type 0 where
  pub name : Text
  pub payload : FlowPayloadType
  pub after : Option (List FlowItem)
  pub branch : Option (List Text)
  pub subscribers : Option (List Text)

pub record FlowEvent : Type 0 where
  pub name : Text
  pub payload : Json
  pub action : FlowAction
  pub flow_type : FlowType

-- The action `send` of the transports, as it is dispatched.
pub record Sent : Type 0 where
  pub endpoint : Text
  pub type : Text
  pub action : Text
  pub payload : Json

-- The facets, the guard, the events emitted and what was sent, the last first.
pub record FlowState : Type 0 where
  pub facets : Facets
  pub guard : List Text
  pub events : List FlowEvent
  pub sent : List Sent

-- How a call comes back: in the end, with an error, or not with the fuel given.
pub data Returned : Type 0 where
  done : Returned
  failed : CoreError → Returned
  unfinished : Returned
