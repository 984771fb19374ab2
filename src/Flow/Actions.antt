-- ===== src/Flow/Actions.antt =====
-- The actions of the runtime `flow` in crates/flow/src/flow.rs, on the facets, their files and the
-- scopes. The log and the notifier have no model; each action has a guard of its own.
pub mod Kept
use rind.Prelude.{
  ℕ, Bool, true, false, Option, none, some, List, [], ◌∷◌, ◌++◌, if◌then◌else◌, ◌==◌, is_empty, map,
}
use rind.Map
use rind.Map.{Map}
use rind.Text.{Text, text_eq}
use rind.Error.{CoreError, CoreResult, ok, err}
use rind.Json.{Json, object}
use rind.Payload.{FlowPayload, from_json}
use rind.Matching.{FlowMatchOperation, options, FlowInstance, FlowType}
use rind.Persistence.{Libraries, Outcome}
use rind.Scopes.{ScopeStore, scope_for_state, remove_scope}
use rind.Facets.{Facets, Files, EntryCodec, save_all_scopes}
use rind.Flow.{FlowAction, apply, revert, FlowFacet, FlowState, Returned, done, failed, unfinished}
use rind.Flow.Index.{rebuild_transcendence_index, rebuild_inverse_transcendence_index}
use rind.Flow.Reconcile.{
  Context, Step, and_then, for_each, Request, set, remove, reconcile_transcendence,
  reconcile_inverse_transcendence_for_source,
}
use rind.Flow.Run.{run}
use rind.Flow.Impulses.{Impulses, impulse, reconcile_impulse_transcendence}

-- How the facets are saved.
pub record Saver : Type 0 where
  pub libraries : Libraries
  pub entry_codec : EntryCodec
  pub outcomes : Text → Outcome

-- An action's result, none where the fuel runs out, and what it leaves.
abbrev pub Acted : Type 0
Acted = Option (CoreResult (Unit {0})) × (FlowState × Files)

-- `save_facet_graph` behind what may fail
unfoldable pub save_behind : Saver → Returned × FlowState → Files → Acted
save_behind saver (done, st) files =
    let saved = save_all_scopes saver.libraries saver.entry_codec saver.outcomes st.facets files in
    (some saved.0, (st, saved.1))
save_behind saver (failed e, st) files = (some (err e), (st, files))
save_behind saver (unfinished, st) files = (none, (st, files))

abbrev pub fresh : FlowState → FlowState
fresh st = record st { guard = [] }

-- the branches of all facets
unfoldable pub existing_states : Facets → List FlowInstance
existing_states [] = []
existing_states ((name, branches) ∷ facets) = branches ++ existing_states facets

module _ (c : Context) (saver : Saver) (fuel : ℕ) where
  unfoldable pub set_facet_action : Text → Option Json → FlowState → Files → Acted
  unfolding save_behind
  set_facet_action name payload st files =
      let flow_payload = elim payload as (λ (o : Option Json). Option FlowPayload) [
        | none ↦ none
        | some v ↦ some (from_json c.codec (some v))
      ] in
      save_behind saver (run c fuel (set name flow_payload) (fresh st)) files

  -- the operation that a filter stands for; `read` is serde's reader of one
  unfoldable pub filter_of :
      (Json → Option FlowMatchOperation) → Option Json → Option Json → Option FlowMatchOperation
  filter_of read (some (object b)) payload = some (options none none (some (object b)))
  filter_of read (some v) payload = read v
  filter_of read none (some (object b)) = some (options none none (some (object b)))
  filter_of read none (some v) = read v
  filter_of read none none = none

  -- the scope that lives by the facet, where the facet has no branch
  unfoldable pub drop_lifetime : Text → Facets → ScopeStore → ScopeStore
  drop_lifetime name facets scopes =
      if is_empty (Map.get_or name [] facets)
      then elim (scope_for_state scopes name) [
        | none ↦ scopes
        | some scope ↦ (remove_scope scope scopes).1
      ]
      else scopes

  -- behind a removal that was carried out and saved
  abbrev pub scopes_behind : Text → Acted → ScopeStore → ScopeStore
  scopes_behind name (some (ok u), (st, files)) scopes = drop_lifetime name st.facets scopes
  scopes_behind name acted scopes = scopes

  unfoldable pub remove_facet_action :
      (Json → Option FlowMatchOperation)
      → Text
      → Option Json
      → Option Json
      → FlowState
      → Files
      → ScopeStore
      → Acted × ScopeStore
  unfolding save_behind filter_of drop_lifetime
  remove_facet_action read name filter_ payload st files scopes =
      let acted =
        save_behind saver (run c fuel (remove name (filter_of read filter_ payload)) (fresh st))
          files in
      (acted, scopes_behind name acted scopes)

  unfoldable pub impulse_action :
      Impulses → Text → Option Json → FlowState → CoreResult (Unit {0}) × FlowState
  impulse_action impulses name payload st =
      let flow_payload = from_json c.codec payload in
      let emitted = impulse c impulses name (some flow_payload) st in
      let source : FlowInstance = record {
        name = name;
        payload = flow_payload;
        type = FlowType.impulse;
      } in
      elim emitted.0 [
        | err e ↦ (err e, emitted.1)
        | ok u ↦ (ok tt, (reconcile_impulse_transcendence c impulses source [] emitted.1).1)
      ]

  -- the loop of `reconcile_inverse_transcendence_all` over the keys of the index
  unfoldable pub reconcile_inverse_transcendence_all : Step
  reconcile_inverse_transcendence_all st =
      for_each
        (λ key.
          reconcile_inverse_transcendence_for_source c (run c fuel)
            (record { name = key; payload = FlowPayload.none false; type = FlowType.facet }) revert)
        (map (λ entry. entry.0) c.inverse_transcendence_index) st

  -- `bootstrap` behind the rebuilding of the indexes
  unfoldable pub bootstrap_indexed : FlowState → Files → Acted
  unfolding reconcile_inverse_transcendence_all save_behind
  bootstrap_indexed st files =
      let steps =
        and_then
          (for_each (λ state. reconcile_transcendence c (run c fuel) state apply)
            (existing_states st.facets))
          reconcile_inverse_transcendence_all in
      save_behind saver (steps (fresh st)) files

-- `refresh_metadata_and_indexes`
unfoldable pub refresh_metadata_and_indexes : List (Text × FlowFacet) → Context → Context
refresh_metadata_and_indexes items c = record c {
  transcendence_index = rebuild_transcendence_index items;
  inverse_transcendence_index = rebuild_inverse_transcendence_index items;
}

unfoldable pub bootstrap : List (Text × FlowFacet) → Context → Saver → ℕ → FlowState → Files → Acted
unfolding refresh_metadata_and_indexes bootstrap_indexed
bootstrap items c saver fuel st files =
    bootstrap_indexed (refresh_metadata_and_indexes items c) saver fuel st files
