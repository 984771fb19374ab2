-- ===== src/Payload.antt =====
-- `FlowPayload` of crates/ipc/src/ipc.rs. The texts of serde_json's values and the reading of bytes
-- as UTF-8 are parameters.
pub mod Fields
use rind.Prelude.{ℕ, Bool, false, List, [], Option, ◌≡◌}
use rind.Text.{Text}
use rind.Text.Split as Split
use rind.Json.{Json, null, array, object, get, insert_entry}

-- `to_string` and `from_str` of serde_json, and `String::from_utf8_lossy`
pub record JsonCodec : Type 0 where
  pub to_string : Json → Text
  pub from_str : Text → Option Json
  pub from_utf8_lossy : List ℕ → Text
  -- `to_string` of a `usize`
  pub usize_to_string : ℕ → Text

-- serde_json reads what it has written of the value.
abbrev pub Reads : JsonCodec → Json → Type 0
Reads codec v = codec.from_str (codec.to_string v) ≡ Option.some v

pub data FlowPayload : Type 0 where
  json : Text → FlowPayload
  string : Text → FlowPayload
  bytes : List ℕ → FlowPayload
  none : Bool → FlowPayload

module _ (codec : JsonCodec) where
  -- `FlowJson::into_json`
  unfoldable pub into_json : Text → Json
  into_json s = elim (codec.from_str s) [ Option.none ↦ null | Option.some v ↦ v ]

  unfoldable pub to_string_payload : FlowPayload → Text
  to_string_payload (FlowPayload.json s) = s
  to_string_payload (FlowPayload.string s) = s
  to_string_payload (FlowPayload.bytes b) = codec.from_utf8_lossy b
  to_string_payload (FlowPayload.none b) = []

  unfoldable pub from_json : Option Json → FlowPayload
  from_json (Option.some (Json.string s)) = FlowPayload.string s
  from_json (Option.some (object es)) = FlowPayload.json (codec.to_string (object es))
  from_json (Option.some (array vs)) = FlowPayload.json (codec.to_string (array vs))
  from_json (Option.some null) = FlowPayload.none false
  from_json Option.none = FlowPayload.none false
  from_json (Option.some v) = FlowPayload.string (codec.to_string v)

  unfoldable pub to_json : FlowPayload → Json
  unfolding into_json
  to_json (FlowPayload.json s) = into_json s
  to_json (FlowPayload.string s) = Json.string s
  to_json (FlowPayload.bytes b) = Json.string (codec.from_utf8_lossy b)
  to_json (FlowPayload.none b) = null

  unfoldable pub get_json_field : FlowPayload → Text → Option Json
  get_json_field (FlowPayload.json s) field = get field (into_json s)
  get_json_field p field = Option.none

  unfoldable pub set_json : FlowPayload → Text → Json → FlowPayload
  set_json (FlowPayload.json s) key value = elim (into_json s) [
    | object es ↦ FlowPayload.json (codec.to_string (object (insert_entry key value es)))
    | _ ↦ FlowPayload.json s
  ]
  set_json p key value = p

-- `FlowPayload::contains`
unfoldable pub contains : FlowPayload → Text → Bool
contains (FlowPayload.string s) needle = Split.contains needle s
contains (FlowPayload.json s) needle = Split.contains needle s
contains p needle = false
