-- ===== src/Flow/Actions/Kept.antt =====
-- The invariant of the facets through the actions of crates/flow/src/flow.rs.
use rind.Prelude.{ℕ, ◌≡◌, refl, false, Option, List, map, subst, sym}
use rind.Map.Entries.{AllEntries}
use rind.Text.{Text, text_eq}
use rind.Json.{Json}
use rind.Payload.{FlowPayload}
use rind.Matching.{FlowMatchOperation, FlowInstance, FlowType}
use rind.Scopes.{ScopeStore}
use rind.Facets.{Files}
use rind.Flow.{apply, revert, FlowFacet, FlowState, Returned, done, failed, unfinished}
use rind.Flow.Reconcile.{
  Context, and_then, for_each, Request, set, remove, reconcile_transcendence,
  reconcile_inverse_transcendence_for_source,
}
use rind.Flow.Run.{run}
use rind.Flow.Run.Keeps.{
  Keeps, Holds, and_then-Keeps, for_each-Keeps, reconcile-Keeps, reconcile_inverse-Keeps, run-Keeps,
}
use rind.Flow.Run.Fits.{typed, may_have, Fits, Fits-IsKept}
use rind.Flow.Actions.{
  Saver, save_behind, fresh, set_facet_action, remove_facet_action, filter_of,
  reconcile_inverse_transcendence_all, existing_states, bootstrap_indexed,
  refresh_metadata_and_indexes, bootstrap,
}

save_behind-state :
    (s : Saver) (r : Returned × FlowState) (files : Files) → (save_behind s r files).1.0 ≡ r.1
unfolding save_behind
save_behind-state s (done, st) files = refl
save_behind-state s (failed e, st) files = refl
save_behind-state s (unfinished, st) files = refl

module _ (c : Context) (saver : Saver) (fuel : ℕ) where
  saved-Holds :
      (r : Returned × FlowState) (files : Files)
      → Holds (Fits c) r.1
      → Holds (Fits c) (save_behind saver r files).1.0
  saved-Holds r files h =
      subst (λ (st : FlowState). Holds (Fits c) st) (sym (save_behind-state saver r files)) h

  runs : (r : Request) → Keeps (Fits c) (run c fuel r)
  runs = run-Keeps c (Fits c) (Fits-IsKept c) fuel

  inverse_all-Keeps : Keeps (Fits c) (reconcile_inverse_transcendence_all c saver fuel)
  unfolding reconcile_inverse_transcendence_all
  inverse_all-Keeps st i =
      for_each-Keeps (Fits c)
        (λ key.
          reconcile_inverse_transcendence_for_source c (run c fuel)
            (record { name = key; payload = FlowPayload.none false; type = FlowType.facet }) revert)
        (map (λ entry. entry.0) c.inverse_transcendence_index)
        (λ key.
          reconcile_inverse-Keeps c (Fits c) (Fits-IsKept c) (run c fuel) runs
            (record { name = key; payload = FlowPayload.none false; type = FlowType.facet }) revert)
        st i

  indexed-Keeps :
      (st : FlowState) (files : Files)
      → Holds (Fits c) st
      → Holds (Fits c) (bootstrap_indexed c saver fuel st files).1.0
  unfolding bootstrap_indexed
  indexed-Keeps st files i =
      let body = λ (state : FlowInstance). reconcile_transcendence c (run c fuel) state apply in
      let first = for_each body (existing_states st.facets) in
      let rest = reconcile_inverse_transcendence_all c saver fuel in
      saved-Holds (and_then first rest (fresh st)) files (
        and_then-Keeps (Fits c) first rest
          (for_each-Keeps (Fits c) body (existing_states st.facets)
            (λ state. reconcile-Keeps c (Fits c) (Fits-IsKept c) (run c fuel) runs state apply))
          inverse_all-Keeps (fresh st) i)

-- The actions that set a facet, remove one and start the runtime keep it that every branch carries
-- the name of its facet and a payload of the declared type, and that only a facet of JSON has more
-- than one branch, whether they succeed or not.
pub actions-Fits :
    (c : Context) (saver : Saver) (fuel : ℕ) (st : FlowState) (files : Files)
    (items : List (Text × FlowFacet)) (read : Json → Option FlowMatchOperation) (name : Text)
    (payload filter_ : Option Json) (scopes : ScopeStore)
    → AllEntries (Fits c) st.facets
    → AllEntries (Fits c) (set_facet_action c saver fuel name payload st files).1.0.facets
      × AllEntries
          (Fits c)
          (remove_facet_action c saver fuel read name filter_ payload st files scopes).0.1.0.facets
      × AllEntries (Fits c) (bootstrap items c saver fuel st files).1.0.facets
unfolding set_facet_action remove_facet_action bootstrap refresh_metadata_and_indexes typed may_have
actions-Fits c saver fuel st files items read name payload filter_ scopes i = (
  saved-Holds c saver fuel (run c fuel (set name _) (fresh st)) files
      (runs c saver fuel (set name _) (fresh st) i),
  saved-Holds c saver fuel
      (run c fuel (remove name (filter_of c saver fuel read filter_ payload)) (fresh st)) files
      (runs c saver fuel (remove name (filter_of c saver fuel read filter_ payload)) (fresh st) i),
  indexed-Keeps (refresh_metadata_and_indexes items c) saver fuel st files i,
)
