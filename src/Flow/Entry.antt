-- ===== src/Flow/Entry.antt =====
-- The branches of one facet in `set_facet` of crates/flow/src/flow.rs: which of them a payload
-- replaces, and which it is merged into.
pub mod Merged
pub mod Keys
pub mod Placed
use rind.Prelude.{Bool, true, false, Option, none, some, List, [], ◌∷◌, map, if◌then◌else◌, ◌==◌}
use rind.Text.{Text, codes, text_eq}
use rind.Json.{Json, object, as_object, of_map, to_map}
use rind.Payload.{JsonCodec, FlowPayload, into_json}
use rind.Matching.{FlowInstance}
use rind.Triggers as Triggers
use rind.Triggers.{branch_target_key}
use rind.Flow.{FlowFacet}

abbrev pub keys_beq : List Text → List Text → Bool
keys_beq [] [] = true
keys_beq [] (y ∷ ys) = false
keys_beq (x ∷ xs) [] = false
keys_beq (x ∷ xs) (y ∷ ys) = let rest = keys_beq xs ys in if x == y then rest else false

-- `json_branch_key`
unfoldable pub json_branch_key : JsonCodec → Json → List Text → Option (List Text)
json_branch_key codec value keys = elim (as_object value) [
  | none ↦ none
  | some obj ↦ Triggers.json_branch_key codec.to_string obj keys
]

-- `merge_json`
unfoldable pub merge_json : Json → Json → Json
merge_json (object a) (object b) = object (of_map (Triggers.merge_json (to_map a) (to_map b)))
merge_json a b = a

unfoldable pub branch_keys : FlowFacet → List Text
branch_keys def = elim def.branch [ none ↦ codes "id" ∷ [] | some b ↦ map branch_target_key b ]

module _ (codec : JsonCodec) (keys : List Text) where
  -- `existing_key == Some(new_key)`
  unfoldable pub has_key : List Text → FlowInstance → Bool
  unfolding json_branch_key
  has_key new_key branch = elim branch.payload [
    | FlowPayload.json s ↦ elim (json_branch_key codec (into_json codec s) keys) [
      | none ↦ false
      | some existing ↦ keys_beq existing new_key
    ]
    | _ ↦ false
  ]

  abbrev pub merge_payload : Json → FlowPayload → FlowPayload
  merge_payload new (FlowPayload.json s) =
      FlowPayload.json (codec.to_string (merge_json (into_json codec s) new))
  merge_payload new p = p

  -- the loop over the branches: the first one with the key takes the new fields, and where there is
  -- none the instance is pushed
  unfoldable pub merge_branch :
      Json → List Text → FlowInstance → List FlowInstance → List FlowInstance
  unfolding has_key
  merge_branch new new_key instance_ [] = instance_ ∷ []
  merge_branch new new_key instance_ (branch ∷ branches) =
      let rest = merge_branch new new_key instance_ branches in
      if has_key new_key branch
      then record branch { payload = merge_payload new branch.payload } ∷ branches
      else branch ∷ rest

-- The entry that `set_facet` leaves, or none where the payload has not the keys of the branches.
unfoldable pub apply_entry :
    JsonCodec → FlowFacet → FlowInstance → List FlowInstance → Option (List FlowInstance)
unfolding merge_branch branch_keys
apply_entry codec def instance_ entry = elim instance_.payload [
  | FlowPayload.json s ↦ elim (json_branch_key codec (into_json codec s) (branch_keys def)) [
    | none ↦ none
    | some new_key ↦
        some (merge_branch codec (branch_keys def) (into_json codec s) new_key instance_ entry)
  ]
  | _ ↦ some (instance_ ∷ [])
]
