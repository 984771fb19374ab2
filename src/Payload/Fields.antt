-- ===== src/Payload/Fields.antt =====
-- The fields of a payload of crates/ipc/src/ipc.rs, and its way to a value and back.
use rind.Prelude.{◌≡◌, refl, some, if◌then◌else◌, ◌==◌, ==_iff, arith}
use rind.Text.{Text, text_eq}
use rind.Json.{
  Json, null, boolean, number, string, array, object, Entries, end, entry, get, get_entry,
  insert_entry,
}
use rind.Payload.{
  JsonCodec, Reads, FlowPayload, into_json, from_json, to_json, get_json_field, set_json,
}

pub get_entry-insert_entry :
    (k j : Text) (v : Json) (es : Entries)
    → get_entry j (insert_entry k v es) ≡ (if k == j then some v else get_entry j es)
unfolding get_entry insert_entry
get_entry-insert_entry k j v end = refl
get_entry-insert_entry k j v (entry i w es) =
    ground (arith, ==_iff k j, ==_iff i k, ==_iff i j, get_entry-insert_entry k j v es)

-- What comes back of a value: of a number and a Boolean its text.
abbrev pub told : JsonCodec → Json → Json
told codec (boolean b) = string (codec.to_string (boolean b))
told codec (number n) = string (codec.to_string (number n))
told codec v = v

module _ (codec : JsonCodec) where
  pub into_json_self : (v : Json) → Reads codec v → into_json codec (codec.to_string v) ≡ v
  unfolding into_json
  into_json_self v h = rw (h, into_json)

  -- A value made a payload comes back as itself, or as its text where it is a number or a Boolean, if
  -- the codec reads back what is written of it.
  to_json-from_json :
      (v : Json) → Reads codec v → to_json codec (from_json codec (some v)) ≡ told codec v
  unfolding to_json from_json
  to_json-from_json null h = refl
  to_json-from_json (boolean b) h = refl
  to_json-from_json (number n) h = refl
  to_json-from_json (string s) h = refl
  to_json-from_json (array vs) h = into_json_self (array vs) h
  to_json-from_json (object es) h = into_json_self (object es) h

  -- In a payload of a JSON object, set_json sets that field and leaves every other as it was,
  -- where the codec reads back the object that is written.
  pub get_json_field-set_json :
      (s : Text) (es : Entries) (key field : Text) (value : Json)
      → into_json codec s ≡ object es
      → Reads codec (object (insert_entry key value es))
      → get_json_field codec (set_json codec (FlowPayload.json s) key value) field
        ≡ (if key == field then some value else get_json_field codec (FlowPayload.json s) field)
  unfolding get_json_field set_json get
  get_json_field-set_json s es key field value e h =
      rw (e, set_json, get_json_field, into_json_self (object (insert_entry key value es)) h)
        (get_entry-insert_entry key field value es)
