-- ===== src/Flow/Impulses.antt =====
-- The conditions and the impulses of crates/flow/src/flow.rs: `condition_is_active`,
-- `condition_matches`, `impulse` and `reconcile_impulse_transcendence`.
use rind.Prelude.{
  Bool, true, false, Option, none, some, List, [], ◌∷◌, ◌++◌, any, all, if◌then◌else◌, ◌&&◌,
}
use rind.Set
use rind.Text.{Text, codes, text_eq}
use rind.ScopedNames.{joined}
use rind.Error.{CoreResult, ok, err, invalid_state}
use rind.Payload.{JsonCodec, FlowPayload, to_json, to_string_payload}
use rind.Matching.{
  FlowItem, FlowInstance, FlowType, check_condition, payload_compatible, payload_type_ok,
}
use rind.Facets.{Facets}
use rind.Flow.{apply, FlowImpulse, FlowState}
use rind.Flow.Payloads.{map_json_payload}
use rind.Flow.Reconcile.{Context, publish_to_flow_subscribers}

module _ (codec : JsonCodec) where
  -- a branch that the condition and the payload accept
  abbrev pub accepts : FlowItem → Option FlowPayload → FlowInstance → Bool
  accepts cond payload branch =
      check_condition codec cond (record branch { type = FlowType.facet })
      && payload_compatible codec payload branch.payload

  unfoldable pub condition_is_active : Facets → FlowItem → Option FlowPayload → Bool
  condition_is_active facets cond payload = any (λ entry. any (accepts cond payload) entry.1) facets

  unfoldable pub condition_matches :
      Facets → FlowItem → Option FlowInstance → Option FlowPayload → Bool
  unfolding condition_is_active
  condition_matches facets cond none payload = condition_is_active facets cond payload
  condition_matches facets cond (some event) payload =
      if check_condition codec cond event && payload_compatible codec payload event.payload
      then true
      else condition_is_active facets cond payload

-- The declared impulses with their groups, and `find` of an impulse by its full name.
pub record Impulses : Type 0 where
  pub items : List (Text × FlowImpulse)
  pub find : Text → Option FlowImpulse

module _ (c : Context) (impulses : Impulses) where
  unfoldable pub impulse : Text → Option FlowPayload → FlowState → CoreResult (Unit {0}) × FlowState
  impulse name payload st =
      let flow_payload = elim payload as (λ (o : Option FlowPayload). FlowPayload) [
        | none ↦ FlowPayload.none false
        | some p ↦ p
      ] in
      elim (impulses.find name) [
        | none ↦ (err (invalid_state (codes "signal not found: " ++ name)), st)
        | some def ↦
            if payload_type_ok def.payload flow_payload
            then (
              ok tt,
              publish_to_flow_subscribers c name (codes "impulse") flow_payload apply
                  def.subscribers
                  (record st {
                    events =
                        (record {
                          name = name;
                          payload = to_json c.codec flow_payload;
                          action = apply;
                          flow_type = FlowType.impulse;
                        })
                        ∷ st.events;
                  }),
            )
            else (err (invalid_state (codes "signal payload type mismatch: " ++ name)), st)
      ]

  -- the payload for an impulse that follows the source, if it does
  unfoldable pub dependent_payload : Facets → FlowInstance → FlowImpulse → Option FlowPayload
  unfolding condition_matches
  dependent_payload facets source def = elim def.after [
    | none ↦ none
    | some after ↦
        if any (λ cond. check_condition c.codec cond source) after
          && all (λ cond. condition_matches c.codec facets cond (some source) none) after
        then elim def.branch [
          | none ↦ some source.payload
          | some specs ↦ map_json_payload c.codec specs source.payload
        ]
        else none
  ]

  unfoldable pub dependents :
      Facets → FlowInstance → List (Text × FlowImpulse) → List (Text × FlowPayload)
  dependents facets source [] = []
  dependents facets source ((group, def) ∷ items) =
      let rest = dependents facets source items in
      elim (dependent_payload facets source def) [
        | none ↦ rest
        | some payload ↦ (joined group def.name, payload) ∷ rest
      ]

  -- `format!("{signal_name}|{}", payload.to_string_payload())`
  abbrev pub signature : Text × FlowPayload → Text
  signature (name, payload) = name ++ b'|' ∷ to_string_payload c.codec payload

  -- the loop over the dependents, with the signatures emitted so far
  unfoldable pub emit_all :
      List (Text × FlowPayload) → List Text → FlowState → List Text × FlowState
  unfolding impulse
  emit_all [] emitted st = (emitted, st)
  emit_all ((name, payload) ∷ rest) emitted st =
      let sig = signature (name, payload) in
      if Set.contains sig emitted
      then emit_all rest emitted st
      else emit_all rest (Set.insert sig emitted) (impulse name (some payload) st).1

  unfoldable pub reconcile_impulse_transcendence :
      FlowInstance → List Text → FlowState → List Text × FlowState
  unfolding dependents emit_all
  reconcile_impulse_transcendence source emitted st =
      emit_all (dependents st.facets source impulses.items) emitted st
