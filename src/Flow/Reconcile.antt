-- ===== src/Flow/Reconcile.antt =====
-- The reconciliation of crates/flow/src/flow.rs: what follows from a facet that was set or removed,
-- as `Request`s to set or remove others. A hash set is iterated in the order of its list.
use rind.Prelude.{
  ℕ, zero, suc, Bool, true, false, not, Option, none, some, List, [], ◌∷◌, if◌then◌else◌, ◌==◌,
  ◌&&◌, ◌||◌, any, all, filter, is_empty, length, map,
}
use rind.Map
use rind.Map.{Map}
use rind.Text.{Text, codes, text_eq}
use rind.Text.Split.{starts_with, strip_prefix}
use rind.Payload.{JsonCodec, FlowPayload, to_json}
use rind.Matching.{
  FlowMatchOperation, FlowInstance, FlowType, match_operation, check_condition, payload_to_filter,
  payload_compatible,
}
use rind.Variables.{Toml, Environment, VariableHeap}
use rind.Flow.{
  FlowAction, apply, revert, InverseBranchingConfig, config_name, config_branch, FlowFacet,
  FlowState, Returned, done, failed, unfinished,
}
use rind.Flow.Payloads.{
  TomlJson, auto_payloads_for, transcendent_payload_for, branch_filter_from_payload,
}

-- `?` and `let … else` of an option
infixl 5 ◌>>=◌
abbrev ◌>>=◌ {ℓ κ} : {A : Type ℓ} {B : Type κ} → Option A → (A → Option B) → Option B
none >>= f = none
some a >>= f = f a

abbrev first {ℓ} : {A : Type ℓ} → List A → Option A
first [] = none
first (x ∷ xs) = some x

-- The runtime's indexes, the declarations that `metadata.find` finds by a full name, and the
-- variables.
pub record Context : Type 1 where
  pub codec : JsonCodec
  pub toml : Toml
  pub values : TomlJson toml
  pub variables : Option (Environment toml × VariableHeap toml)
  pub find : Text → Option FlowFacet
  pub transcendence_index : Map Text (List Text)
  pub inverse_transcendence_index : Map Text (List Text)

abbrev pub Step : Type 0
Step = FlowState → Returned × FlowState

abbrev pub skip : Step
skip st = (done, st)

-- what follows behind a `?`
abbrev pub proceed : Step → Returned → Step
proceed next done st = next st
proceed next (failed e) st = (failed e, st)
proceed next unfinished st = (unfinished, st)

-- `first?; next`
unfoldable pub and_then : Step → Step → Step
and_then one two st = let r = one st in proceed two r.0 r.1

abbrev pub settle : Returned → Returned
settle (failed e) = done
settle r = r

-- `let _ = step`
unfoldable pub ignore_error : Step → Step
ignore_error step st = let r = step st in (settle r.0, r.1)

-- a `for` whose body may return early by `?`
unfoldable pub for_each {ℓ} : {A : Type ℓ} → (A → Step) → List A → Step
unfolding and_then
for_each body [] = skip
for_each body (x ∷ xs) = and_then (body x) (for_each body xs)

pub data Request : Type 0 where
  set : Text → Option FlowPayload → Request
  remove : Text → Option FlowMatchOperation → Request

abbrev pub call_if : (Request → Step) → Option Request → Step
call_if call none st = skip st
call_if call (some request) st = call request st

abbrev pub action_text : FlowAction → Text
action_text apply = codes "set"
action_text revert = codes "remove"

-- `trim_start_matches("route:")`
unfoldable pub trim_route : ℕ → Text → Text
trim_route zero s = s
trim_route (suc n) s = elim (strip_prefix (codes "route:") s) [
  | none ↦ s
  | some rest ↦ trim_route n rest
]

-- the endpoint of a subscriber in `publish_to_flow_subscribers`; a text of n characters has the
-- prefix at most n times
unfoldable pub subscriber_endpoint : Text → Text → Text
unfolding trim_route
subscriber_endpoint endpoint id =
    if starts_with (codes "route:") id || (not (id == codes "uds") && not (id == codes "shm"))
    then trim_route (length id) id
    else endpoint

module _ (c : Context) where
  unfoldable pub publish_to_flow_subscribers :
      Text → Text → FlowPayload → FlowAction → Option (List Text) → FlowState → FlowState
  unfolding subscriber_endpoint
  publish_to_flow_subscribers endpoint type payload action none st = st
  publish_to_flow_subscribers endpoint type payload action (some []) st = st
  publish_to_flow_subscribers endpoint type payload action (some (id ∷ ids)) st =
      publish_to_flow_subscribers endpoint type payload action (some ids) (record st {
        sent =
            (record {
              endpoint = subscriber_endpoint endpoint id;
              type = type;
              action = action_text action;
              payload = to_json c.codec payload;
            })
            ∷ st.sent;
      })

  -- the emitted event and what is published of it
  abbrev pub announce :
      Text → Text → FlowPayload → FlowAction → Option (List Text) → FlowState → FlowState
  announce name endpoint payload action subscribers st =
      publish_to_flow_subscribers endpoint (codes "facet") payload action subscribers (record st {
        events =
            (record {
              name = name;
              payload = to_json c.codec payload;
              action = action;
              flow_type = FlowType.facet;
            })
            ∷ st.events;
      })

  -- the payload that `reconcile_transcendence` has for one target, unless it passes over it
  unfoldable pub transcendence_payload : FlowInstance → Text → Option FlowPayload
  transcendence_payload source full_name = do
    def ← c.find full_name
    after ← def.after
    _ ← (if any (λ cond. check_condition c.codec cond source) after then some (tt {0}) else none)
    source_payload ← elim def.auto_payload [
      | none ↦ some source.payload
      | some cfg ↦ first (auto_payloads_for c.codec c.toml c.values def c.variables)
    ]
    transcendent_payload_for c.codec def source_payload

  abbrev pub request_for : FlowAction → Text → FlowPayload → Request
  request_for apply full_name payload = set full_name (some payload)
  request_for revert full_name payload = remove full_name (payload_to_filter c.codec payload)

  unfoldable pub transcendence_request : FlowInstance → FlowAction → Text → Option Request
  transcendence_request source action full_name = elim (transcendence_payload source full_name) [
    | none ↦ none
    | some payload ↦ some (request_for action full_name payload)
  ]

  -- `reconcile_transcendence`; `call` is what the requests are handed to
  unfoldable pub reconcile_transcendence : (Request → Step) → FlowInstance → FlowAction → Step
  reconcile_transcendence call source action st =
      for_each (λ target. call_if call (transcendence_request source action target))
        (Map.get_or source.name [] c.transcendence_index) st

  -- whether a facet of `stop_on` lets the payload be active
  unfoldable pub allows :
      FlowInstance → FlowAction → FlowPayload → FlowState → InverseBranchingConfig → Bool
  allows source action payload st cfg =
      let branches = Map.get_or (config_name cfg) [] st.facets in
      elim (config_branch cfg) [
        | some spec ↦ elim (branch_filter_from_payload c.codec payload spec) [
          | none ↦ true
          | some filter ↦ not (any (λ b. match_operation c.codec filter b.payload) branches)
        ]
        | none ↦
            if config_name cfg == source.name
            then elim action [ apply ↦ is_empty branches | revert ↦ true ]
            else is_empty branches
      ]

  unfoldable pub should_activate :
      FlowInstance
      → FlowAction
      → FlowFacet
      → List InverseBranchingConfig
      → FlowPayload
      → FlowState
      → Bool
  unfolding allows
  should_activate source action def deps payload st = elim def.auto_payload [
    | none ↦ false
    | some cfg ↦ all (allows source action payload st) deps
  ]

  unfoldable pub currently_active : Text → FlowPayload → FlowState → Bool
  currently_active full_name payload st =
      any (λ b. payload_compatible c.codec (some payload) b.payload)
        (Map.get_or full_name [] st.facets)

  -- by `should_activate` and `currently_active`
  abbrev pub switch : Bool → Bool → Text → FlowPayload → Option Request
  switch true false full_name payload = some (request_for apply full_name payload)
  switch false true full_name payload = some (request_for revert full_name payload)
  switch _ _ full_name payload = none

  -- what the loop over the payloads of a target asks for
  unfoldable pub inverse_request :
      FlowInstance
      → FlowAction
      → Text
      → FlowFacet
      → List InverseBranchingConfig
      → FlowPayload
      → FlowState
      → Option Request
  inverse_request source action full_name def deps payload st =
      switch (should_activate source action def deps payload st)
        (currently_active full_name payload st) full_name payload

  -- the payloads of a target, read before the loop over them
  unfoldable pub inverse_payloads : Text → FlowFacet → FlowState → List FlowPayload
  inverse_payloads full_name def st = elim def.auto_payload [
    | none ↦ map (λ b. b.payload) (Map.get_or full_name [] st.facets)
    | some cfg ↦ auto_payloads_for c.codec c.toml c.values def c.variables
  ]

  -- the declaration of a target with its `stop_on`
  unfoldable pub stop_on_of : Text → Option (FlowFacet × List InverseBranchingConfig)
  stop_on_of full_name = do def ← c.find full_name; deps ← def.stop_on; some (def, deps)

  abbrev pub inverse_step :
      (Request → Step)
      → FlowInstance
      → FlowAction
      → Text
      → FlowFacet
      → List InverseBranchingConfig
      → FlowPayload
      → Step
  inverse_step call source action full_name def deps payload st =
      call_if call (inverse_request source action full_name def deps payload st) st

  abbrev pub inverse_loop :
      (Request → Step)
      → FlowInstance
      → FlowAction
      → Text
      → Option (FlowFacet × List InverseBranchingConfig)
      → Step
  inverse_loop call source action full_name none st = skip st
  inverse_loop call source action full_name (some (def, deps)) st =
      for_each (inverse_step call source action full_name def deps)
        (inverse_payloads full_name def st) st

  unfoldable pub reconcile_inverse_transcendence_for_source :
      (Request → Step) → FlowInstance → FlowAction → Step
  reconcile_inverse_transcendence_for_source call source action st =
      for_each (λ full_name. inverse_loop call source action full_name (stop_on_of full_name))
        (Map.get_or source.name [] c.inverse_transcendence_index) st
