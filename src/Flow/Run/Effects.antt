-- ===== src/Flow/Run/Effects.antt =====
-- What setting and removing a facet in crates/flow/src/flow.rs comes to, with all that follows from
-- it.
use rind.Prelude.{
  ℕ, suc, ◌<◌, ◌≤◌, ◌≡◌, true, false, none, is_empty, if◌then◌else◌, ◌==◌, Option, some, List, [],
  refl,
}
use rind.Map
use rind.Map.Entries.{AllEntries}
use rind.Set
use rind.Text.{Text, text_eq}
use rind.Payload.{FlowPayload}
use rind.Matching.{FlowMatchOperation, FlowInstance, FlowType, payload_type_ok}
use rind.Flow.{FlowFacet, FlowState, done}
use rind.Flow.Entry.Placed.{PlainPayload, Applied, apply_entry-Applied}
use rind.Flow.Reconcile.{Context, Request, set, remove}
use rind.Flow.Run.{apply_key, payload_or_none, run}
use rind.Flow.Run.Keeps.{run-Keeps}
use rind.Flow.Run.Fits.{Fits, Fits-IsKept}
use rind.Flow.Run.Ends.{facet_of, Falls}
use rind.Flow.Run.Parts.{branches_after, set_facet_effect}
use rind.Flow.Run.Termination.{staying, calls, run-Ends, remove_facet_effect}

module _ (c : Context) (rank : Text → ℕ) (falls : Falls c rank) (fuel : ℕ) where
  -- Where the branches of the facets fit and a number falls from each facet to those that the two
  -- indexes have for it, setting or removing a facet, with all that follows from it, leaves every
  -- other facet whose number is not below its own as it was.
  pub run_others :
      (request : Request)
      → rank (facet_of request) < fuel
      → (st : FlowState) → AllEntries (Fits c) st.facets
      → (other : Text) → rank (facet_of request) ≤ rank other
      → (facet_of request == other) ≡ false
      → Map.get other (run c fuel request st).1.facets ≡ Map.get other st.facets
  run_others request lt st i other le apart =
      (run-Ends c rank falls fuel request lt st i).1 other (le, apart)

  -- Where the branches of the facets fit and a number falls from each facet to those that the two
  -- indexes have for it: with the call not under way, a declared facet and a payload of its type,
  -- which if it is a JSON object has no key twice, empty or starting with an ampersand, set_facet
  -- changes the branches of the facet as follows, whatever follows from it and whether this
  -- succeeds or not. A payload that is no JSON becomes the only branch. One of JSON goes into the
  -- first branch with the same values of the branch keys, each field of which is then that of the
  -- payload where it has the field and else the old one, and behind all branches where there is
  -- none. One that lacks the keys changes no branch.
  pub run-set_facet :
      (name : Text) (payload : Option FlowPayload) (def : FlowFacet) (st : FlowState)
      → PlainPayload c.codec (payload_or_none payload)
      → rank name ≤ fuel
      → Set.contains (apply_key c name payload) st.guard ≡ false
      → c.find name ≡ some def
      → payload_type_ok def.payload (payload_or_none payload) ≡ true
      → AllEntries (Fits c) st.facets
      → (result : List FlowInstance) × (Map.get name
            (run c (suc fuel) (set name payload) st).1.facets
          ≡ some result)
        × Applied c.codec def
            (record { name = name; payload = payload_or_none payload; type = FlowType.facet })
            (Map.get_or name [] st.facets)
            result
  unfolding run
  run-set_facet name payload def st plain le outside found ok_type i = (
    branches_after c def name (payload_or_none payload) st.facets,
    set_facet_effect c rank falls name (run c fuel) (run-Keeps c (Fits c) (Fits-IsKept c) fuel)
        (calls c rank falls fuel name le (λ r less. run-Ends c rank falls fuel r less)) payload def
        st outside found ok_type i,
    apply_entry-Applied c.codec def _ (Map.get_or name [] st.facets) (payload_or_none payload) refl
        plain,
  )

  -- Where the branches of the facets fit and a number falls from each facet to those that the two
  -- indexes have for it, a remove_facet that succeeds leaves of a present facet the branches that
  -- the filter does not match, and no facet where it matches all.
  pub run-remove_facet :
      (name : Text) (filter_ : Option FlowMatchOperation) (branches : List FlowInstance)
      (st : FlowState)
      → rank name ≤ fuel
      → AllEntries (Fits c) st.facets
      → Map.get name st.facets ≡ some branches
      → (run c (suc fuel) (remove name filter_) st).0 ≡ done
      → Map.get name (run c (suc fuel) (remove name filter_) st).1.facets ≡ (
          if is_empty (staying c filter_ branches) then none else some (staying c filter_ branches))
  unfolding run
  run-remove_facet name filter_ branches st le i found success =
      remove_facet_effect c rank falls name (run c fuel) (run-Keeps c (Fits c) (Fits-IsKept c) fuel)
        (calls c rank falls fuel name le (λ r less. run-Ends c rank falls fuel r less)) filter_
        branches st i found success
