-- ===== src/Matching.antt =====
-- The matching of conditions and payloads in crates/flow/src/triggers.rs, over the types of
-- crates/flow/src/flow.rs and the match operations of crates/ipc/src/ipc.rs.
pub mod Filters
use rind.Prelude.{
  Bool, true, false, Option, none, some, [], List, ◌∷◌, ◌++◌, ◌==◌, if◌then◌else◌, not, ◌||◌,
  length,
}
use rind.Text.{Text, codes, text_eq}
use rind.Text.Split as Split
use rind.Json.{Json, object, end, json_subset, subset_match}
use rind.Payload.{JsonCodec, FlowPayload, into_json, to_string_payload, to_json}
use rind.Triggers.{same_flow_name}

pub data FlowMatchOperation : Type 0 where
  eq : Text → FlowMatchOperation
  -- the fields `binary`, `contains` and `as`
  options : Option Bool → Option Text → Option Json → FlowMatchOperation

pub data FlowPayloadType : Type 0 where
  json string bytes none_type : FlowPayloadType

pub data FlowType : Type 0 where
  impulse facet : FlowType

-- `==` of flow types
abbrev pub is_facet : FlowType → Bool
is_facet facet = true
is_facet impulse = false

pub data FlowItem : Type 0 where
  simple : Text → FlowItem
  -- the fields `facet`, `impulse`, `target` and `branch`
  detailed :
      Option Text → Option Text → Option FlowMatchOperation → Option FlowMatchOperation → FlowItem

pub record FlowInstance : Type 0 where
  pub name : Text
  pub payload : FlowPayload
  pub type : FlowType

module _ (codec : JsonCodec) where
  unfoldable pub match_operation : FlowMatchOperation → FlowPayload → Bool
  match_operation (eq v) payload = to_string_payload codec payload == v
  match_operation (options (some true) needle filter) (FlowPayload.bytes b) = true
  match_operation (options (some true) needle filter) payload = false
  match_operation (options binary (some needle) filter) payload =
      Split.contains needle (to_string_payload codec payload)
  match_operation (options binary none (some filter)) payload =
      subset_match filter (to_json codec payload)
  match_operation (options binary none none) payload = false

  -- `if let Some(op) = op { if !match_operation(op, payload) { return false; } }`
  unfoldable pub passes : Option FlowMatchOperation → FlowPayload → Bool
  unfolding match_operation
  passes none payload = true
  passes (some op) payload = match_operation op payload

  unfoldable pub check_condition : FlowItem → FlowInstance → Bool
  unfolding passes
  check_condition (simple name) trigger = same_flow_name name trigger.name
  check_condition (detailed (some name) signal target branch) trigger =
      if not (is_facet trigger.type) || not (same_flow_name name trigger.name)
      then false
      else if not (passes target trigger.payload)
      then false
      else passes branch trigger.payload
  check_condition (detailed none (some name) target branch) trigger =
      if is_facet trigger.type || not (same_flow_name name trigger.name)
      then false
      else if not (passes target trigger.payload)
      then false
      else passes branch trigger.payload
  check_condition (detailed none none target branch) trigger = false

  unfoldable pub payload_signature : Option FlowPayload → Text
  payload_signature (some (FlowPayload.json v)) = codes "json:" ++ v
  payload_signature (some (FlowPayload.string v)) = codes "str:" ++ v
  payload_signature (some (FlowPayload.bytes v)) =
      codes "bytes:" ++ codec.usize_to_string (length v)
  payload_signature (some (FlowPayload.none b)) = codes "none"
  payload_signature none = codes "none"

  unfoldable pub payload_to_filter : FlowPayload → Option FlowMatchOperation
  payload_to_filter (FlowPayload.json i) = some (options none none (some (into_json codec i)))
  payload_to_filter (FlowPayload.string i) = some (eq i)
  payload_to_filter p = none

  unfoldable pub default_payload_for_type : FlowPayloadType → FlowPayload
  default_payload_for_type json = FlowPayload.json (codec.to_string (object end))
  default_payload_for_type string = FlowPayload.string []
  default_payload_for_type bytes = FlowPayload.bytes []
  default_payload_for_type none_type = FlowPayload.none false

  unfoldable pub payload_compatible : Option FlowPayload → FlowPayload → Bool
  payload_compatible none thing = true
  payload_compatible (some (FlowPayload.json a)) (FlowPayload.json b) =
      json_subset (into_json codec a) (into_json codec b)
  payload_compatible (some (FlowPayload.string a)) (FlowPayload.string b) = a == b
  payload_compatible (some reference) thing = true

-- `payload_type_ok` of crates/flow/src/flow.rs
unfoldable pub payload_type_ok : FlowPayloadType → FlowPayload → Bool
payload_type_ok json (FlowPayload.json s) = true
payload_type_ok string (FlowPayload.string s) = true
payload_type_ok bytes (FlowPayload.bytes b) = true
payload_type_ok none_type (FlowPayload.none b) = true
payload_type_ok expected payload = false
