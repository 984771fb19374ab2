-- ===== src/Flow/Run.antt =====
-- `set_facet` and `remove_facet` of crates/flow/src/flow.rs, which call each other through the
-- reconciliation, on fuel.
pub mod Keeps
pub mod Fits
pub mod Ends
pub mod Parts
pub mod Termination
pub mod Effects
use rind.Prelude.{
  ℕ, zero, suc, Bool, true, false, not, Option, none, some, List, [], ◌∷◌, ◌++◌, if◌then◌else◌,
  filter, is_empty,
}
use rind.Map
use rind.Map.{Map}
use rind.Set
use rind.Text.{Text, codes, text_eq}
use rind.Error.{CoreError, invalid_state}
use rind.Payload.{FlowPayload}
use rind.Matching.{
  FlowMatchOperation, FlowInstance, FlowType, match_operation, payload_signature, payload_type_ok,
}
use rind.Facets.{Facets}
use rind.Flow.{FlowAction, apply, revert, FlowFacet, FlowState, Returned, done, failed, unfinished}
use rind.Flow.Entry.{apply_entry}
use rind.Flow.Reconcile.{
  Context, Step, skip, and_then, ignore_error, for_each, Request, set, remove, announce,
  reconcile_transcendence, reconcile_inverse_transcendence_for_source,
}

abbrev pub payload_or_none : Option FlowPayload → FlowPayload
payload_or_none none = FlowPayload.none false
payload_or_none (some p) = p

-- the guard with a key more, and with a key less
abbrev pub enter : Text → FlowState → FlowState
enter key st = record st { guard = Set.insert key st.guard }

abbrev pub leave : Text → FlowState → FlowState
leave key st = record st { guard = Set.remove key st.guard }

abbrev pub with_facets : Facets → FlowState → FlowState
with_facets facets st = record st { facets = facets }

-- the branches to keep, when the others are removed
abbrev pub put_back : Text → List FlowInstance → Step
put_back name [] st = (done, st)
put_back name (b ∷ bs) st = (done, with_facets (Map.insert name (b ∷ bs) st.facets) st)

module _ (c : Context) where
  abbrev pub apply_key : Text → Option FlowPayload → Text
  apply_key name payload =
      codes "apply::" ++ name ++ codes "::" ++ payload_signature c.codec payload

  abbrev pub revert_key : FlowInstance → Text
  revert_key branch =
      codes "revert::"
      ++ branch.name
      ++ codes "::"
      ++ payload_signature c.codec (some branch.payload)

  -- `set_facet` from the event on
  unfoldable pub apply_facet : (Request → Step) → Text → FlowFacet → FlowInstance → Step
  apply_facet call key def instance_ st =
      let name = instance_.name in
      let told = announce c name name instance_.payload apply def.subscribers st in
      let entry = Map.get_or name [] told.facets in
      elim (apply_entry c.codec def instance_ entry) [
        | none ↦ (
          failed (invalid_state (codes "invalid JSON branch keys")),
          leave key (with_facets (Map.insert name entry told.facets) told),
        )
        | some branches ↦
            and_then (reconcile_transcendence c call instance_ apply)
              (and_then (reconcile_inverse_transcendence_for_source c call instance_ apply)
                (λ next. (done, leave key next)))
              (with_facets (Map.insert name branches told.facets) told)
      ]

  unfoldable pub set_facet : (Request → Step) → Text → Option FlowPayload → Step
  unfolding apply_facet
  set_facet call name payload st =
      let key = apply_key name payload in
      let entered = enter key st in
      elim (Set.contains key st.guard) [
        | true ↦ skip st
        | false ↦ elim (c.find name) [
          | none ↦ (failed (invalid_state (codes "facet not found: " ++ name)), entered)
          | some def ↦ elim (payload_type_ok def.payload (payload_or_none payload)) [
            | false ↦ (
              failed (invalid_state (codes "state payload type mismatch: " ++ name)),
              leave key entered,
            )
            | true ↦
                apply_facet call key def
                  (record { name = name; payload = payload_or_none payload; type = FlowType.facet })
                  entered
          ]
        ]
      ]

  -- `facet_subscribers_for`
  unfoldable pub subscribers_of : Text → Option (List Text)
  subscribers_of name = elim (c.find name) [ none ↦ none | some def ↦ def.subscribers ]

  -- the body of the loop over the branches to remove
  unfoldable pub revert_branch : (Request → Step) → Text → FlowInstance → Step
  revert_branch call name branch st =
      let source : FlowInstance = record branch { type = FlowType.facet } in
      let key = revert_key branch in
      elim (Set.contains key st.guard) [
        | true ↦ skip st
        | false ↦
            and_then (reconcile_transcendence c call source revert)
              (and_then
                (ignore_error (reconcile_inverse_transcendence_for_source c call source revert))
                (λ next. (done, leave key next)))
              (announce c branch.name branch.name branch.payload revert (subscribers_of name)
                (enter key st))
      ]

  abbrev pub matched : Option FlowMatchOperation → FlowInstance → Bool
  matched none branch = true
  matched (some filter) branch = match_operation c.codec filter branch.payload

  unfoldable pub remove_facet : (Request → Step) → Text → Option FlowMatchOperation → Step
  unfolding revert_branch for_each
  remove_facet call name filter_ st = elim (Map.get name st.facets) [
    | none ↦ skip st
    | some branches ↦
        let to_keep = filter (λ (b : FlowInstance). not (matched filter_ b)) branches in
        and_then (for_each (revert_branch call name) (filter (matched filter_) branches))
          (put_back name to_keep) (with_facets (Map.remove name st.facets) st)
  ]

  -- a request carried out with so many calls inside of each other
  unfoldable pub run : ℕ → Request → Step
  unfolding set_facet remove_facet
  run zero request st = (unfinished, st)
  run (suc fuel) (set name payload) st = set_facet (run fuel) name payload st
  run (suc fuel) (remove name filter_) st = remove_facet (run fuel) name filter_ st
