-- ===== src/Flow/Payloads.antt =====
-- The payloads that crates/flow/src/flow.rs makes for the facets that follow others:
-- `payloads_from_toml`, `auto_payloads_for`, `transcendent_payload_for` and
-- `branch_filter_from_payload`. What the crates toml and serde_json make of a TOML value is a
-- parameter.
use rind.Prelude.{
  ℕ, suc, true, false, not, Option, none, some, List, [], ◌∷◌, map, if◌then◌else◌, ◌==◌, filter,
  is_empty,
}
use rind.Text.{Text, codes, text_eq}
use rind.Text.Split.{split}
use rind.Json.{Json, boolean, object, Entries, end, entry, get, as_object, of_map, insert_entry}
use rind.Payload.{JsonCodec, FlowPayload, into_json}
use rind.Matching as Matching
use rind.Matching.{FlowMatchOperation, options, FlowPayloadType, default_payload_for_type}
use rind.Triggers as Triggers
use rind.Triggers.{branch_target_key}
use rind.Variables as Variables
use rind.Variables.{Toml, Environment, VariableHeap}
use rind.Flow.{AutoPayloadInsert, AutoPayloadConfig, FlowFacet}

-- `map_json_payload` of a payload
unfoldable pub map_json_payload : JsonCodec → List Text → FlowPayload → Option FlowPayload
map_json_payload codec specs (FlowPayload.json s) = elim (as_object (into_json codec s)) [
  | none ↦ none
  | some source ↦ elim (Triggers.map_json_payload specs source) [
    | none ↦ none
    | some mapped ↦ some (FlowPayload.json (codec.to_string (object (of_map mapped))))
  ]
]
map_json_payload codec specs p = none

-- `serde_json::to_value`, `get`, `as_array` and `to_string` of a TOML value, and `as_bytes`
pub record TomlJson (toml : Toml) : Type 0 where
  pub to_value : toml.Value → Option Json
  pub get : toml.Value → ℕ → Option toml.Value
  pub as_array : toml.Value → Option (List toml.Value)
  pub to_string : toml.Value → Text
  pub as_bytes : Text → List ℕ

module _ (codec : JsonCodec) (toml : Toml) (values : TomlJson toml) where
  -- `to_value(v).unwrap_or(Bool(true))`
  unfoldable pub json_of : toml.Value → Json
  json_of v = elim (values.to_value v) [ none ↦ boolean true | some j ↦ j ]

  -- the loop over the keys, from an index
  unfoldable pub insert_keys : toml.Value → ℕ → List Text → Entries → Entries
  unfolding json_of
  insert_keys v i [] obj = obj
  insert_keys v i (key ∷ keys) obj =
      insert_keys v (suc i) keys
        (elim (values.get v i) [ none ↦ obj | some item ↦ insert_entry key (json_of item) obj ])

  unfoldable pub payloads_from_toml : FlowFacet → AutoPayloadConfig → toml.Value → FlowPayload
  unfolding insert_keys
  payloads_from_toml def cfg v = elim def.payload [
    | Matching.json ↦ elim cfg.insert [
      | some (AutoPayloadInsert.one key) ↦
          if key == codes "root"
          then FlowPayload.json (codec.to_string (json_of v))
          else FlowPayload.json (codec.to_string (object (entry key (json_of v) end)))
      | some (AutoPayloadInsert.many keys) ↦
          FlowPayload.json (codec.to_string (object (insert_keys v 0 keys end)))
      | none ↦
          FlowPayload.json
            (codec.to_string (object (entry (codes "value") (Json.string (codes "none")) end)))
    ]
    | Matching.string ↦ FlowPayload.string (values.to_string v)
    | Matching.bytes ↦ FlowPayload.bytes (values.as_bytes (values.to_string v))
    | Matching.none_type ↦ FlowPayload.none false
  ]

  unfoldable pub variable_of :
      Option (Environment toml × VariableHeap toml) → Text → Option toml.Value
  variable_of none name = none
  variable_of (some (env, heap)) name = Variables.get toml env heap name

  unfoldable pub auto_payloads_for :
      FlowFacet → Option (Environment toml × VariableHeap toml) → List FlowPayload
  unfolding variable_of payloads_from_toml
  auto_payloads_for def variables =
      let default_payload = default_payload_for_type codec def.payload ∷ [] in
      elim def.auto_payload [
        | none ↦ []
        | some cfg ↦ elim cfg.variable [
          | none ↦ default_payload
          | some variable ↦ elim (variable_of variables variable) [
            | none ↦ default_payload
            | some value ↦
                if cfg.many
                then elim (values.as_array value) [
                  | none ↦ default_payload
                  | some items ↦ map (payloads_from_toml def cfg) items
                ]
                else payloads_from_toml def cfg value ∷ []
          ]
        ]
      ]

unfoldable pub transcendent_payload_for : JsonCodec → FlowFacet → FlowPayload → Option FlowPayload
unfolding map_json_payload
transcendent_payload_for codec def source = elim def.payload [
  | Matching.json ↦ elim def.branch [
    | some specs ↦ map_json_payload codec specs source
    | none ↦ elim source [ FlowPayload.json s ↦ some (FlowPayload.json s) | _ ↦ none ]
  ]
  | Matching.string ↦ elim source [ FlowPayload.string s ↦ some (FlowPayload.string s) | _ ↦ none ]
  | Matching.bytes ↦ elim source [ FlowPayload.bytes b ↦ some (FlowPayload.bytes b) | _ ↦ none ]
  | Matching.none_type ↦ some (FlowPayload.none false)
]

-- the value at the end of a path
unfoldable pub follow : List Text → Json → Option Json
follow [] current = some current
follow (segment ∷ path) current = elim (get segment current) [
  | none ↦ none
  | some next ↦ follow path next
]

unfoldable pub branch_filter_from_payload :
    JsonCodec → FlowPayload → Text → Option FlowMatchOperation
unfolding follow
branch_filter_from_payload codec (FlowPayload.json s) spec =
    elim (follow (filter (λ (p : Text). not (is_empty p)) (split b'/' spec)) (into_json codec s)) [
      | none ↦ none
      | some value ↦
          some (options none none (some (object (entry (branch_target_key spec) value end))))
    ]
branch_filter_from_payload codec p spec = none
