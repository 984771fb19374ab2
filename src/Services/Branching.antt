-- ===== src/Services/Branching.antt =====
-- The branches of a service: the key of a branch, `check_branch_match` and the loop of
-- `evaluate_triggers` in crates/services/src/services.rs that chooses the branches to start. The
-- values of the variables are read as lists and as JSON by their crate, which is a parameter.
pub mod Chosen
pub mod Wanted
use rind.Prelude.{
  ℕ, suc, Bool, true, false, not, ◌&&◌, ◌||◌, Option, none, some, List, [], ◌∷◌, ◌++◌, map, any,
  leb, length, if◌then◌else◌, ◌==◌,
}
use rind.Map
use rind.Text.{Text, codes, text_eq}
use rind.Text.Split.{split, split_once, strip_prefix, trim}
use rind.Json.{Json, null, string}
use rind.Payload.{JsonCodec, FlowPayload, to_string_payload, get_json_field, to_json}
use rind.Json.{subset_match}
use rind.Dispatch.{shown}
use rind.Matching.{FlowInstance}
use rind.Facets.{Facets}
use rind.Variables.{Toml, VariableHeap, Environment}
use rind.Variables
use rind.Services.{ChildInstance, BranchingConfig, ServiceBranchContext}
use rind.Services.Instances.{is_running}
use mathlib.Core.Option

-- what the crate toml and serde_json make of a variable's value
pub record TomlReader (toml : Toml) : Type 0 where
  pub as_array : toml.Value → Option (List toml.Value)
  pub to_value : toml.Value → Option Json

-- a heap and the environment that it reads
pub record Heap (toml : Toml) : Type 0 where
  pub heap : VariableHeap toml
  pub env : Environment toml

unfoldable pub non_empty : Text → Option Text
non_empty [] = none
non_empty (c ∷ s) = some (c ∷ s)

module _ (codec : JsonCodec) where
  unfoldable pub payload_field_as_key : FlowPayload → Text → Option Text
  payload_field_as_key payload field = Option.map (shown codec) (get_json_field codec payload field)

  unfoldable pub branch_key_from_payload : FlowPayload → Option Text → Option Text
  unfolding payload_field_as_key non_empty
  branch_key_from_payload payload none = non_empty (to_string_payload codec payload)
  branch_key_from_payload payload (some key_name) =
      Option.bind (payload_field_as_key payload key_name) non_empty

  -- the value of one instance of a facet, `null` where it has no such field
  unfoldable pub compared : Option Text → FlowPayload → Json
  compared none payload = to_json codec payload
  compared (some field) payload = elim (get_json_field codec payload field) [
    | none ↦ null
    | some v ↦ v
  ]

  -- the name of a facet and of a field after it
  unfoldable pub facet_field : Text → Text × Option Text
  facet_field spec = elim (split_once b'/' spec) [ none ↦ (spec, none) | some p ↦ (p.0, some p.1) ]

  unfoldable pub matches_facet : Text → Text → Facets → Bool
  unfolding compared facet_field
  matches_facet key spec facets =
      any (λ inst. subset_match (string key) (compared (facet_field spec).1 inst.payload))
        (Map.get_or (facet_field spec).0 [] facets)

  unfoldable pub matches_plain : Text → Text → Bool
  matches_plain key spec = subset_match (string key) (string spec)

  unfoldable pub matches_many : Text → Text → Bool
  unfolding matches_plain
  matches_many key specs = any (λ spec. matches_plain key (trim spec)) (split b',' specs)

  abbrev holds : (Text → Bool) → Option Text → Bool
  holds test none = false
  holds test (some spec) = test spec

  module _ (toml : Toml) (reader : TomlReader toml) where
    unfoldable pub matches_value : Text → Option Json → Bool
    matches_value key none = false
    matches_value key (some v) = subset_match (string key) v

    unfoldable pub matches_var : Text → Text → Option (Heap toml) → Bool
    unfolding matches_value
    matches_var key name none = false
    matches_var key name (some vh) = elim (Variables.get toml vh.env vh.heap name) [
      | none ↦ false
      | some val ↦ elim (reader.as_array val) [
        | none ↦ matches_value key (reader.to_value val)
        | some vals ↦ any (λ v. matches_value key (reader.to_value v)) vals
      ]
    ]

    unfoldable pub check_branch_match : Option (Heap toml) → Facets → Text → Text → Bool
    unfolding matches_var matches_facet matches_many matches_plain
    check_branch_match vh facets spec key = elim (strip_prefix (codes "var:") spec) [
      | some name ↦ matches_var key name vh
      | none ↦
          holds (λ state. matches_facet key state facets) (strip_prefix (codes "facet:") spec)
          || holds (λ specs. matches_many key specs) (strip_prefix (codes "many:") spec)
          || matches_plain key spec
    ]

-- the `break` of the loop
unfoldable pub at_limit : Option ℕ → List ChildInstance → ℕ → Bool
at_limit none insts started = false
at_limit (some max) insts started = leb max (length insts) || leb max started

abbrev pub context_for : Text → FlowPayload → ServiceBranchContext
context_for key payload = record { key = some key; payload = some payload; forced_user = none }

-- The loop over the branches of a service that is to be started.
module _ (key_of : FlowPayload → Option Text) (matches : Text → Text → Bool) where
  -- `only` lets the key through, and `except` does not skip it
  unfoldable pub let_through : BranchingConfig → Text → Bool
  let_through config key =
      elim config.only [ none ↦ true | some onlys ↦ any (λ spec. matches spec key) onlys ]
      && elim config.except [
        | none ↦ true
        | some excepts ↦ not (any (λ spec. matches spec key) excepts)
      ]

  unfoldable pub runs_key : Text → List ChildInstance → Bool
  runs_key key insts = any (λ i. i.key == key && is_running i.state) insts

  -- the key of a branch that is not passed over by one of the loop's `continue`
  unfoldable pub wanted : BranchingConfig → List ChildInstance → FlowInstance → Option Text
  unfolding runs_key let_through
  wanted config insts branch =
      Option.bind (key_of branch.payload)
        (λ key. if not (runs_key key insts) && let_through config key then some key else none)

  unfoldable pub branches_to_start :
      BranchingConfig → List ChildInstance → ℕ → List FlowInstance → List ServiceBranchContext
  branches_to_start config insts started [] = []
  branches_to_start config insts started (branch ∷ branches) = elim (wanted config insts branch) [
    | none ↦ branches_to_start config insts started branches
    | some key ↦ elim (at_limit config.max_instances insts started) [
      | true ↦ []
      | false ↦
          context_for key branch.payload ∷ branches_to_start config insts (suc started) branches
    ]
  ]
