-- ===== src/Matching/Filters.antt =====
-- The filters that crates/flow/src/triggers.rs makes of payloads, at these payloads.
use rind.Prelude.{subst, ==_iff, ◌≡◌, refl, Bool, true, false, Option, none, some, ==_refl, arith}
use rind.Text.{text_eq}
use rind.Json.Reflexive.{KeysDistinct, subset_match_self}
use rind.Json.Subset.{json_subset-subset_match}
use rind.Payload.{JsonCodec, FlowPayload, into_json, to_json, to_string_payload}
use rind.Matching.{
  json, string, bytes, none_type, FlowMatchOperation, FlowPayloadType, match_operation,
  payload_to_filter, payload_compatible, payload_type_ok, default_payload_for_type,
}

module _ (codec : JsonCodec) where
  -- The payload is no JSON or has no object with two entries of one key.
  abbrev pub PayloadDistinct : FlowPayload → Type 0
  PayloadDistinct (FlowPayload.json s) = KeysDistinct (into_json codec s)
  PayloadDistinct p = Unit {0}

  -- `match_operation` with a filter that may be missing
  passes_filter : Option FlowMatchOperation → FlowPayload → Bool
  passes_filter none p = false
  passes_filter (some op) p = match_operation codec op p

  -- The filter made of a payload matches that payload, if no object in it has a key twice.
  pub payload_to_filter-match_operation :
      (payload : FlowPayload) (op : FlowMatchOperation)
      → PayloadDistinct payload
      → payload_to_filter codec payload ≡ some op
      → match_operation codec op payload ≡ true
  unfolding payload_to_filter match_operation to_json to_string_payload passes_filter
  payload_to_filter-match_operation (FlowPayload.json s) op h e =
      subst (λ (x : Option FlowMatchOperation). passes_filter x (FlowPayload.json s) ≡ true) e
        (subset_match_self (into_json codec s) h)
  payload_to_filter-match_operation (FlowPayload.string s) op h e =
      subst (λ (x : Option FlowMatchOperation). passes_filter x (FlowPayload.string s) ≡ true) e
        (==_refl s)
  payload_to_filter-match_operation (FlowPayload.bytes b) op h e = cc
  payload_to_filter-match_operation (FlowPayload.none b) op h e = cc

  -- The default payload of a type has that type.
  default_payload_for_type-payload_type_ok :
      (t : FlowPayloadType) → payload_type_ok t (default_payload_for_type codec t) ≡ true
  unfolding payload_type_ok default_payload_for_type
  default_payload_for_type-payload_type_ok json = refl
  default_payload_for_type-payload_type_ok string = refl
  default_payload_for_type-payload_type_ok bytes = refl
  default_payload_for_type-payload_type_ok none_type = refl

  -- Of two payloads of one type, where the second is compatible with the first, the filter made of
  -- the first matches the second.
  pub payload_compatible-match_operation :
      (t : FlowPayloadType) (reference thing : FlowPayload) (op : FlowMatchOperation)
      → payload_type_ok t reference ≡ true
      → payload_type_ok t thing ≡ true
      → payload_to_filter codec reference ≡ some op
      → payload_compatible codec (some reference) thing ≡ true
      → match_operation codec op thing ≡ true
  unfolding payload_type_ok payload_compatible payload_to_filter passes_filter match_operation
      to_json to_string_payload
  payload_compatible-match_operation json (FlowPayload.json a) (FlowPayload.json b) op r t f c =
      subst (λ (x : Option FlowMatchOperation). passes_filter x (FlowPayload.json b) ≡ true) f
        (json_subset-subset_match (into_json codec a) (into_json codec b) c)
  payload_compatible-match_operation string (FlowPayload.string a) (FlowPayload.string b) op r t f
        c =
      subst (λ (x : Option FlowMatchOperation). passes_filter x (FlowPayload.string b) ≡ true) f
        (ground (arith, ==_iff a b, ==_iff b a))
  payload_compatible-match_operation t (FlowPayload.bytes a) thing op r k f c = cc
  payload_compatible-match_operation t (FlowPayload.none a) thing op r k f c = cc
  payload_compatible-match_operation t (FlowPayload.json a) thing op r k f c = absurd (ground arith)
  payload_compatible-match_operation t (FlowPayload.string a) thing op r k f c =
      absurd (ground arith)
