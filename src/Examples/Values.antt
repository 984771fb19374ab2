-- ===== src/Examples/Values.antt =====
-- The theorems about the values and payloads of crates/flow/src/triggers.rs and
-- crates/ipc/src/ipc.rs at objects of a few entries.
use rind.Prelude.{◌≡◌, refl, true, none, some, [], ◌∷◌}
use rind.Text.{Text, codes, text_eq}
use rind.Json.{
  Json, null, boolean, number, string, array, object, nil, cons, Entries, end, entry, get_entry,
  leaf_eq, to_list, json_subset, insert_entry,
}
use rind.Payload.{JsonCodec, FlowPayload, into_json}
use rind.Matching as Matching
use rind.Matching.{
  FlowMatchOperation, match_operation, payload_to_filter, payload_compatible, payload_type_ok,
}
use rind.Matching.Filters.{PayloadDistinct, payload_compatible-match_operation}

abbrev named : Text → Entries
named s = entry (codes "id") (string s) end

-- A text is the object that has it for its id.
abbrev text_of : Json → Text
text_of (object (entry k (string s) rest)) = s
text_of v = []

abbrev pub ids : JsonCodec
ids = record {
  to_string = text_of;
  from_str = λ s. some (object (named s));
  from_utf8_lossy = λ b. b;
  usize_to_string = λ n. n ∷ [];
}

abbrev small : Json
small = object (entry (codes "uid") (number 7) end)

abbrev medium : Json
medium = object (entry (codes "uid") (number 7) (entry (codes "seat") (array (cons null nil)) end))

abbrev large : Json
large = object (
    entry (codes "seat") (array (cons (boolean true) (cons null nil)))
      (entry (codes "uid") (number 7) end))

first_accepted : json_subset small medium ≡ true
unfolding json_subset get_entry leaf_eq
first_accepted = refl

second_accepted : json_subset medium large ≡ true
unfolding json_subset get_entry leaf_eq to_list
second_accepted = refl

ids_read : into_json ids (codes "a") ≡ object (named (codes "a"))
unfolding into_json
ids_read = refl

replaced :
    ids.from_str
      (ids.to_string (object (insert_entry (codes "id") (string (codes "b")) (named (codes "a")))))
    ≡ some (object (insert_entry (codes "id") (string (codes "b")) (named (codes "a"))))
unfolding insert_entry
replaced = refl

filter_made :
    payload_to_filter ids (FlowPayload.json (codes "a"))
    ≡ some (FlowMatchOperation.options none none (some (object (named (codes "a")))))
unfolding payload_to_filter into_json
filter_made = refl

a_distinct : PayloadDistinct ids (FlowPayload.json (codes "a"))
unfolding into_json get_entry
a_distinct = (refl, tt, tt)

compatible :
    payload_compatible ids (some (FlowPayload.json (codes "a"))) (FlowPayload.json (codes "a"))
    ≡ true
unfolding payload_compatible into_json json_subset get_entry leaf_eq
compatible = refl

json_typed : payload_type_ok Matching.json (FlowPayload.json (codes "a")) ≡ true
unfolding payload_type_ok
json_typed = refl

payload_compatible-match_operation_example :
    match_operation ids
      (FlowMatchOperation.options none none (some (object (named (codes "a")))))
      (FlowPayload.json (codes "a"))
    ≡ true
payload_compatible-match_operation_example =
    payload_compatible-match_operation ids Matching.json (FlowPayload.json (codes "a"))
      (FlowPayload.json (codes "a"))
      (FlowMatchOperation.options none none (some (object (named (codes "a"))))) json_typed
      json_typed filter_made compatible
