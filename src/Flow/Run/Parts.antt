-- ===== src/Flow/Run/Parts.antt =====
-- What `set_facet` and the loop of `remove_facet` of crates/flow/src/flow.rs come to, where the calls
-- inside of them end and leave the facets of higher numbers as they are.
use rind.Prelude.{
  ℕ, ◌<◌, ◌≤◌, ◌≡◌, ◌≢◌, Bool, true, false, not, is_empty, if◌then◌else◌, ◌==◌, ◌&&◌, ==_refl, ap,
  ◌∙◌, refl, Option, some, List, [], ◌∷◌, subst, sym, arith, Option-cases, Bool-cases, inl, inr,
  filter, All,
}
use rind.Map
use rind.Map.Entries.{AllEntries, insert-AllEntries, get_or-AllEntries}
use rind.Set
use rind.Text.{Text, codes, text_eq}
use rind.Payload.{FlowPayload}
use rind.Matching.{FlowMatchOperation, FlowInstance, FlowType, payload_type_ok}
use rind.Facets.{Facets}
use rind.Flow.{apply, revert, FlowFacet, FlowState, Returned, done, unfinished}
use rind.Flow.Entry.{apply_entry}
use rind.Flow.Entry.Placed.{or_entry}
use rind.Flow.Reconcile.{
  Context, Step, and_then, ignore_error, for_each, Request, announce, reconcile_transcendence,
  reconcile_inverse_transcendence_for_source,
}
use rind.Flow.Run.{
  put_back, subscribers_of, apply_key, revert_key, payload_or_none, set_facet, apply_facet,
  revert_branch, with_facets, enter, leave, matched,
}
use rind.Flow.Run.Keeps.{
  Holds, Keeps, reconcile-Keeps, reconcile_inverse-Keeps, ignore_error-Keeps, revert_branch-Keeps,
  publish-facets,
}
use rind.Flow.Run.Fits.{Fits, BranchFits, Fits-IsKept}
use rind.Flow.Run.Ends.{
  facet_of, Falls, Ends, and_then-Ends, ignore_error-Ends, leave-Ends, skip-Ends, Same,
  for_each-Ends, reconcile-Ends, reconcile_inverse-Ends,
}

abbrev pub branches_after : Context → FlowFacet → Text → FlowPayload → Facets → List FlowInstance
branches_after c def name payload facets =
    let entry = Map.get_or name [] facets in
    or_entry
      (apply_entry c.codec def (record { name = name; payload = payload; type = FlowType.facet })
        entry)
      entry

-- the facets that what follows from the facet leaves as they are
abbrev pub Stays : (Text → ℕ) → Text → Text → Type 0
Stays rank name other = rank name ≤ rank other

-- the others among them
abbrev pub Others : (Text → ℕ) → Text → Text → Type 0
Others rank name other = Stays rank name other × (name == other) ≡ false

module _ (c : Context) (rank : Text → ℕ) (falls : Falls c rank) (name : Text)
    (call : Request → Step) where
  module _ (keeps : (r : Request) → Keeps (Fits c) (call r))
      (ends : (r : Request)
        → rank (facet_of r) < rank name
        → Ends c (Stays rank name) (call r)) where
    from_told :
        (r : Returned × FlowState) (st st' : FlowState)
        → st'.facets ≡ st.facets
        → (r.0 ≢ unfinished) × Same c (Stays rank name) st' r.1
        → (r.0 ≢ unfinished) × Same c (Stays rank name) st r.1
    from_told r st st' e h = (h.0, λ other m. h.1 other m ∙ ap (Map.get other) e)

    -- what `apply_facet` comes to, from facets `m`
    abbrev Outcome : Text → FlowFacet → FlowPayload → FlowState → Facets → Type 0
    Outcome key def payload st m =
        let instance_ : FlowInstance = record {
          name = name;
          payload = payload;
          type = FlowType.facet;
        } in
        let r = apply_facet c call key def instance_ st in
        (r.0 ≢ unfinished)
        × ((other : Text)
            → Stays rank name other
            → Map.get other r.1.facets ≡ (
                if name == other
                then some (branches_after c def name payload m)
                else Map.get other m))

    apply_facet_effect :
        (key : Text) (def : FlowFacet) (payload : FlowPayload)
        → c.find name ≡ some def
        → payload_type_ok def.payload payload ≡ true
        → (st : FlowState) → Holds (Fits c) st
        → Outcome key def payload st st.facets
    unfolding apply_facet
    apply_facet_effect key def payload found ok_type st i =
        let instance_ : FlowInstance = record {
          name = name;
          payload = payload;
          type = FlowType.facet;
        } in
        let told = announce c name name payload apply def.subscribers st in
        let same : told.facets ≡ st.facets =
          publish-facets c name (codes "facet") payload apply def.subscribers _ in
        let i' : AllEntries (Fits c) told.facets =
          subst (λ (m : Facets). AllEntries (Fits c) m) (sym same) i in
        let entry = Map.get_or name [] told.facets in
        let law = Fits-IsKept c in
        let old : Fits c name entry =
          get_or-AllEntries (Fits c) name [] told.facets (law.nothing name) i' in
        let inverse = reconcile_inverse_transcendence_for_source c call instance_ apply in
        let le : rank name ≤ rank name = omega arith in
        subst (λ (m : Facets). Outcome key def payload st m) same
          (elim (Option-cases (apply_entry c.codec def instance_ entry)) [
            | inl refused ↦
                rw (refused, apply_facet)
                  ((λ e. cc), (λ other m. Map.get-insert name other entry told.facets))
            | inr (branches, made) ↦
                let new : Fits c name branches =
                  law.applied name def payload entry branches found ok_type old made in
                let start = with_facets (Map.insert name branches told.facets) told in
                let (ended, after) =
                  and_then-Ends c (Stays rank name) (reconcile_transcendence c call instance_ apply)
                    (and_then inverse (λ next. (done, leave key next)))
                    (reconcile-Keeps c (Fits c) law call keeps instance_ apply)
                    (reconcile-Ends c rank falls (rank name) (Stays rank name) call keeps ends
                      instance_ apply le)
                    (and_then-Ends c (Stays rank name) inverse (λ next. (done, leave key next))
                      (reconcile_inverse-Keeps c (Fits c) law call keeps instance_ apply)
                      (reconcile_inverse-Ends c rank falls (rank name) (Stays rank name) call keeps
                        ends instance_ apply le)
                      (leave-Ends c (Stays rank name) key))
                    start (insert-AllEntries (Fits c) name branches told.facets new i') in
                rw (made, apply_facet)
                  (
                    ended,
                    (λ other m. after other m ∙ Map.get-insert name other branches told.facets),
                  )
          ])

    unchanged :
        (st : FlowState) → Holds (Fits c) st → (done ≢ unfinished) × Same c (Others rank name) st st
    unchanged st i = ((λ e. cc), (λ other m. refl))

    pub set_facet-Ends :
        (payload : Option FlowPayload) → Ends c (Others rank name) (set_facet c call name payload)
    unfolding set_facet
    set_facet-Ends payload st i =
        let key = apply_key c name payload in
        let p = payload_or_none payload in
        elim (Bool-cases (Set.contains key st.guard)) [
          | inl inside ↦ rw (inside, set_facet) ((λ e. cc), (λ other m. refl))
          | inr outside ↦ elim (Option-cases (c.find name)) [
            | inl missing ↦ rw (outside, missing, set_facet) ((λ e. cc), (λ other m. refl))
            | inr (def, found) ↦ elim (Bool-cases (payload_type_ok def.payload p)) [
              | inr mismatch ↦
                  rw (outside, found, mismatch, set_facet) ((λ e. cc), (λ other m. refl))
              | inl ok_type ↦
                  let (ended, after) =
                    apply_facet_effect key def p found ok_type (enter key st) i in
                  rw (outside, found, ok_type, set_facet)
                    (ended, (λ other m. ground (arith, after other m.0, m.1)))
            ]
          ]
        ]

    pub set_facet_effect :
        (payload : Option FlowPayload) (def : FlowFacet) (st : FlowState)
        → Set.contains (apply_key c name payload) st.guard ≡ false
        → c.find name ≡ some def
        → payload_type_ok def.payload (payload_or_none payload) ≡ true
        → Holds (Fits c) st
        → Map.get name (set_facet c call name payload st).1.facets
          ≡ some (branches_after c def name (payload_or_none payload) st.facets)
    unfolding set_facet
    set_facet_effect payload def st outside found ok_type i =
        let key = apply_key c name payload in
        let (ended, after) =
          apply_facet_effect key def (payload_or_none payload) found ok_type (enter key st) i in
        rw (outside, found, ok_type, set_facet)
          (ground (arith, after name (omega arith), ==_refl name))

    revert_branch-Ends :
        (at : Text) (branch : FlowInstance)
        → rank branch.name ≤ rank name
        → Ends c (Stays rank name) (revert_branch c call at branch)
    unfolding revert_branch
    revert_branch-Ends at branch le st i =
        let source : FlowInstance = record branch { type = FlowType.facet } in
        let key = revert_key c branch in
        let ids = subscribers_of c at in
        elim (Bool-cases (Set.contains key st.guard)) [
          | inl inside ↦ rw (inside, revert_branch) (skip-Ends c (Stays rank name) st i)
          | inr outside ↦
              let told =
                announce c branch.name branch.name branch.payload revert ids (enter key st) in
              let same : told.facets ≡ st.facets =
                publish-facets c branch.name (codes "facet") branch.payload revert ids _ in
              let i' : AllEntries (Fits c) told.facets =
                subst (λ (m : Facets). AllEntries (Fits c) m) (sym same) i in
              let inverse = reconcile_inverse_transcendence_for_source c call source revert in
              let law = Fits-IsKept c in
              let rest = and_then (ignore_error inverse) (λ next. (done, leave key next)) in
              rw (outside, revert_branch)
                (from_told (and_then (reconcile_transcendence c call source revert) rest told) st
                  told same
                  (and_then-Ends c (Stays rank name) (reconcile_transcendence c call source revert)
                    rest (reconcile-Keeps c (Fits c) law call keeps source revert)
                    (reconcile-Ends c rank falls (rank name) (Stays rank name) call keeps ends
                      source revert le)
                    (and_then-Ends c (Stays rank name) (ignore_error inverse)
                      (λ next. (done, leave key next))
                      (ignore_error-Keeps (Fits c) inverse
                        (reconcile_inverse-Keeps c (Fits c) law call keeps source revert))
                      (ignore_error-Ends c (Stays rank name) inverse (
                        reconcile_inverse-Ends c rank falls (rank name) (Stays rank name) call keeps
                          ends source revert le))
                      (leave-Ends c (Stays rank name) key))
                    told i'))
        ]

    -- a part of the branches of an entry
    branches-Ends :
        (test : FlowInstance → Bool) (bs : List FlowInstance)
        → All (BranchFits c name) bs
        → All (λ b. Ends c (Stays rank name) (revert_branch c call name b)) (filter test bs)
    branches-Ends test [] h = tt
    branches-Ends test (b ∷ bs) h = elim (Bool-cases (test b)) [
      | inl passes ↦ rw passes (
        revert_branch-Ends name b
            (subst (λ (t : Text). rank t ≤ rank name) (sym h.0.0) (omega arith)),
        branches-Ends test bs h.1,
      )
      | inr fails ↦ rw fails (branches-Ends test bs h.1)
    ]

    pub put_back_effect :
        (to_keep : List FlowInstance) (st : FlowState) (other : Text)
        → ((put_back name to_keep st).0 ≡ done)
          × (Map.get other (put_back name to_keep st).1.facets ≡ (
              if name == other && not (is_empty to_keep)
              then some to_keep
              else Map.get other st.facets))
    put_back_effect [] st other = (refl, ground arith)
    put_back_effect (b ∷ bs) st other =
        (refl, ground (arith, Map.get-insert name other (b ∷ bs) st.facets))

    pub put_back-Ends :
        (to_keep : List FlowInstance) → Ends c (Others rank name) (put_back name to_keep)
    put_back-Ends to_keep st i = (
      (λ e. ground (arith, (put_back_effect to_keep st name).0, e)),
      (λ other m. ground (arith, (put_back_effect to_keep st other).1, m.1)),
    )

    -- the loop over the branches, from facets without the name
    abbrev pub gone : Option FlowMatchOperation → List FlowInstance → Step
    gone filter_ branches =
        for_each (revert_branch c call name) (filter (matched c filter_) branches)

    pub gone-Ends :
        (filter_ : Option FlowMatchOperation) (branches : List FlowInstance)
        → Fits c name branches
        → Ends c (Stays rank name) (gone filter_ branches)
    gone-Ends filter_ branches old =
        for_each-Ends c (Stays rank name) (revert_branch c call name)
          (filter (matched c filter_) branches)
          (revert_branch-Keeps c (Fits c) (Fits-IsKept c) call keeps name)
          (branches-Ends (matched c filter_) branches old.0)
