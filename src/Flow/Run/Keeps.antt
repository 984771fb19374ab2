-- ===== src/Flow/Run/Keeps.antt =====
-- What holds of every facet of crates/flow/src/flow.rs goes on to hold while facets are set and
-- removed, if it holds of what set_facet makes of an entry and of a part of an entry.
use rind.Prelude.{
  ℕ, zero, suc, ◌≡◌, refl, Bool, true, not, Option, none, some, List, [], ◌∷◌, subst, sym,
  Option-cases, Bool-cases, inl, inr, filter,
}
use rind.Map
use rind.Map.Entries.{
  AllEntries, insert-AllEntries, remove-AllEntries, get-AllEntries, get_or-AllEntries,
}
use rind.Text.{Text, codes, text_eq}
use rind.Payload.{FlowPayload}
use rind.Matching.{FlowMatchOperation, FlowInstance, FlowType, payload_type_ok}
use rind.Flow.{
  FlowAction, apply, revert, FlowFacet, FlowState, InverseBranchingConfig, Returned, done, failed,
  unfinished,
}
use rind.Flow.Entry.{apply_entry}
use rind.Flow.Reconcile.{
  Context, Step, proceed, and_then, ignore_error, for_each, Request, set, remove, announce,
  publish_to_flow_subscribers, transcendence_request, reconcile_transcendence, inverse_step,
  call_if, inverse_loop, inverse_request, inverse_payloads, stop_on_of,
  reconcile_inverse_transcendence_for_source,
}
use rind.Set
use rind.Facets.{Facets}
use rind.Flow.Run.{
  put_back, subscribers_of, apply_key, revert_key, payload_or_none, set_facet, apply_facet,
  revert_branch, remove_facet, run, with_facets, enter, leave, matched,
}

pub publish-facets :
    (c : Context) (endpoint type : Text) (p : FlowPayload) (action : FlowAction)
    (ids : Option (List Text)) (st : FlowState)
    → (publish_to_flow_subscribers c endpoint type p action ids st).facets ≡ st.facets
unfolding publish_to_flow_subscribers
publish-facets c endpoint type p action none st = refl
publish-facets c endpoint type p action (some []) st = refl
publish-facets c endpoint type p action (some (id ∷ ids)) st =
    publish-facets c endpoint type p action (some ids) _

module _ (P : Text → List FlowInstance → Type 0) where
  abbrev pub Holds : FlowState → Type 0
  Holds st = AllEntries P st.facets

  abbrev pub Keeps : Step → Type 0
  Keeps step = (st : FlowState) → Holds st → Holds (step st).1

  proceed-Keeps : (next : Step) (r : Returned) → Keeps next → Keeps (proceed next r)
  proceed-Keeps next done h st i = h st i
  proceed-Keeps next (failed e) h st i = i
  proceed-Keeps next unfinished h st i = i

  pub and_then-Keeps : (one two : Step) → Keeps one → Keeps two → Keeps (and_then one two)
  unfolding and_then
  and_then-Keeps one two h k st i = proceed-Keeps two (one st).0 k (one st).1 (h st i)

  pub ignore_error-Keeps : (one : Step) → Keeps one → Keeps (ignore_error one)
  unfolding ignore_error
  ignore_error-Keeps one h st i = h st i

  pub for_each-Keeps :
      {A : Type 0} (body : A → Step) (xs : List A)
      → ((x : A) → Keeps (body x))
      → Keeps (for_each body xs)
  unfolding for_each
  for_each-Keeps body [] h st i = i
  for_each-Keeps body (x ∷ xs) h st i =
      and_then-Keeps (body x) (for_each body xs) (h x) (for_each-Keeps body xs h) st i

-- What the framework asks of the property.
pub record IsKept (c : Context) (P : Text → List FlowInstance → Type 0) : Type 0 where
  pub nothing : (name : Text) → P name []
  pub applied :
      (name : Text) (def : FlowFacet) (payload : FlowPayload) (entry branches : List FlowInstance)
      → c.find name ≡ some def
      → payload_type_ok def.payload payload ≡ true
      → P name entry
      → apply_entry c.codec def
          (record { name = name; payload = payload; type = FlowType.facet })
          entry
        ≡ some branches
      → P name branches
  pub parted :
      (name : Text) (test : FlowInstance → Bool) (bs : List FlowInstance)
      → P name bs
      → P name (filter test bs)

module _ (c : Context) (P : Text → List FlowInstance → Type 0) (law : IsKept c P)
    (call : Request → Step) (calls : (r : Request) → Keeps P (call r)) where
  pub call_if-Keeps : (o : Option Request) → Keeps P (call_if call o)
  call_if-Keeps none st i = i
  call_if-Keeps (some request) st i = calls request st i

  pub reconcile-Keeps :
      (source : FlowInstance) (action : FlowAction)
      → Keeps P (reconcile_transcendence c call source action)
  unfolding reconcile_transcendence
  reconcile-Keeps source action st i =
      for_each-Keeps P (λ target. call_if call (transcendence_request c source action target))
        (Map.get_or source.name [] c.transcendence_index)
        (λ target. call_if-Keeps (transcendence_request c source action target)) st i

  pub inverse_loop-Keeps :
      (source : FlowInstance) (action : FlowAction) (full_name : Text)
      (o : Option (FlowFacet × List InverseBranchingConfig))
      → Keeps P (inverse_loop c call source action full_name o)
  inverse_loop-Keeps source action full_name none st i = i
  inverse_loop-Keeps source action full_name (some (def, deps)) st i =
      for_each-Keeps P (inverse_step c call source action full_name def deps)
        (inverse_payloads c full_name def st)
        (λ p st' i'.
          call_if-Keeps (inverse_request c source action full_name def deps p st') st' i')
        st i

  pub reconcile_inverse-Keeps :
      (source : FlowInstance) (action : FlowAction)
      → Keeps P (reconcile_inverse_transcendence_for_source c call source action)
  unfolding reconcile_inverse_transcendence_for_source
  reconcile_inverse-Keeps source action st i =
      for_each-Keeps P
        (λ full_name. inverse_loop c call source action full_name (stop_on_of c full_name))
        (Map.get_or source.name [] c.inverse_transcendence_index)
        (λ full_name. inverse_loop-Keeps source action full_name (stop_on_of c full_name)) st i

  -- what the last steps of the two leave of the facets
  pub leave-Keeps : (key : Text) → Keeps P (λ st. (done, leave key st))
  leave-Keeps key st i = i

  apply_facet-Keeps :
      (key name : Text) (def : FlowFacet) (payload : FlowPayload)
      → c.find name ≡ some def
      → payload_type_ok def.payload payload ≡ true
      → Keeps P (
          apply_facet c call key def
            (record { name = name; payload = payload; type = FlowType.facet }))
  unfolding apply_facet
  apply_facet-Keeps key name def payload found typed st i =
      let instance_ : FlowInstance = record {
        name = name;
        payload = payload;
        type = FlowType.facet;
      } in
      let told = announce c name name payload apply def.subscribers st in
      let same : told.facets ≡ st.facets =
        publish-facets c name (codes "facet") payload apply def.subscribers _ in
      let i' : AllEntries P told.facets = subst (λ (m : Facets). AllEntries P m) (sym same) i in
      let entry = Map.get_or name [] told.facets in
      let old : P name entry = get_or-AllEntries P name [] told.facets (law.nothing name) i' in
      elim (Option-cases (apply_entry c.codec def instance_ entry)) [
        | inl refused ↦
            rw (refused, apply_facet) (insert-AllEntries P name entry told.facets old i')
        | inr (branches, made) ↦
            let new : P name branches =
              law.applied name def payload entry branches found typed old made in
            rw (made, apply_facet)
              (and_then-Keeps P (reconcile_transcendence c call instance_ apply)
                (and_then (reconcile_inverse_transcendence_for_source c call instance_ apply)
                  (λ next. (done, leave key next)))
                (reconcile-Keeps instance_ apply)
                (and_then-Keeps P
                  (reconcile_inverse_transcendence_for_source c call instance_ apply)
                  (λ next. (done, leave key next)) (reconcile_inverse-Keeps instance_ apply)
                  (leave-Keeps key))
                (with_facets (Map.insert name branches told.facets) told)
                (insert-AllEntries P name branches told.facets new i'))
      ]

  pub set_facet-Keeps :
      (name : Text) (payload : Option FlowPayload) → Keeps P (set_facet c call name payload)
  unfolding set_facet
  set_facet-Keeps name payload st i =
      elim (Bool-cases (Set.contains (apply_key c name payload) st.guard)) [
        | inl inside ↦ rw (inside, set_facet) i
        | inr outside ↦ elim (Option-cases (c.find name)) [
          | inl missing ↦ rw (outside, missing, set_facet) i
          | inr (def, found) ↦
              elim (Bool-cases (payload_type_ok def.payload (payload_or_none payload))) [
                | inr mismatch ↦ rw (outside, found, mismatch, set_facet) i
                | inl typed ↦
                    rw (outside, found, typed, set_facet)
                      (apply_facet-Keeps (apply_key c name payload) name def
                        (payload_or_none payload) found typed (enter (apply_key c name payload) st)
                        i)
              ]
        ]
      ]

  pub revert_branch-Keeps :
      (name : Text) (branch : FlowInstance) → Keeps P (revert_branch c call name branch)
  unfolding revert_branch
  revert_branch-Keeps name branch st i =
      let source : FlowInstance = record branch { type = FlowType.facet } in
      let key = revert_key c branch in
      let ids = subscribers_of c name in
      elim (Bool-cases (Set.contains key st.guard)) [
        | inl inside ↦ rw (inside, revert_branch) i
        | inr outside ↦
            let told =
              announce c branch.name branch.name branch.payload revert ids (enter key st) in
            let same : told.facets ≡ st.facets =
              publish-facets c branch.name (codes "facet") branch.payload revert ids _ in
            let i' : AllEntries P told.facets =
              subst (λ (m : Facets). AllEntries P m) (sym same) i in
            let inverse = reconcile_inverse_transcendence_for_source c call source revert in
            rw (outside, revert_branch)
              (and_then-Keeps P (reconcile_transcendence c call source revert)
                (and_then (ignore_error inverse) (λ next. (done, leave key next)))
                (reconcile-Keeps source revert)
                (and_then-Keeps P (ignore_error inverse) (λ next. (done, leave key next))
                  (ignore_error-Keeps P inverse (reconcile_inverse-Keeps source revert))
                  (leave-Keeps key))
                told i')
      ]

  put_back-Keeps :
      (name : Text) (to_keep : List FlowInstance) → P name to_keep → Keeps P (put_back name to_keep)
  put_back-Keeps name [] p st i = i
  put_back-Keeps name (b ∷ bs) p st i = insert-AllEntries P name (b ∷ bs) st.facets p i

  pub remove_facet-Keeps :
      (name : Text) (filter_ : Option FlowMatchOperation)
      → Keeps P (remove_facet c call name filter_)
  unfolding remove_facet
  remove_facet-Keeps name filter_ st i = elim (Option-cases (Map.get name st.facets)) [
    | inl missing ↦ rw (missing, remove_facet) i
    | inr (branches, found) ↦
        let stays = λ (b : FlowInstance). not (matched c filter_ b) in
        let old : P name branches = get-AllEntries P name st.facets i found in
        let loop = for_each (revert_branch c call name) (filter (matched c filter_) branches) in
        rw (found, remove_facet)
          (and_then-Keeps P loop (put_back name (filter stays branches))
            (for_each-Keeps P (revert_branch c call name) (filter (matched c filter_) branches)
              (revert_branch-Keeps name))
            (put_back-Keeps name (filter stays branches) (law.parted name stays branches old))
            (with_facets (Map.remove name st.facets) st) (remove-AllEntries P name st.facets i))
  ]

module _ (c : Context) (P : Text → List FlowInstance → Type 0) (law : IsKept c P) where
  -- A property that the two operations keep holds of every facet when a request has been run.
  pub run-Keeps : (fuel : ℕ) (request : Request) → Keeps P (run c fuel request)
  unfolding run
  run-Keeps zero request st i = i
  run-Keeps (suc fuel) (set name payload) st i =
      set_facet-Keeps c P law (run c fuel) (run-Keeps fuel) name payload st i
  run-Keeps (suc fuel) (remove name filter_) st i =
      remove_facet-Keeps c P law (run c fuel) (run-Keeps fuel) name filter_ st i
