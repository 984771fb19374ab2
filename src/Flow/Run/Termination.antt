-- ===== src/Flow/Run/Termination.antt =====
-- `set_facet` and `remove_facet` of crates/flow/src/flow.rs come to an end where the indexes have no
-- cycle, with the facet as asked for, and leave the facets of higher numbers as they are.
use rind.Prelude.{
  ℕ, zero, suc, ◌<◌, ◌≤◌, ◌≡◌, ◌≢◌, not, none, is_empty, if◌then◌else◌, ◌==◌, ==_iff, ==_refl, ap,
  ◌∙◌, refl, Option, some, List, subst, sym, arith, Option-cases, Bool-cases, inl, inr, filter,
}
use rind.Map
use rind.Map.Entries.{AllEntries, remove-AllEntries, get-AllEntries}
use rind.Text.{Text, text_eq}
use rind.Matching.{FlowMatchOperation, FlowInstance}
use rind.Flow.{FlowState, Returned, done, failed, unfinished}
use rind.Flow.Reconcile.{proceed, Context, Step, and_then, Request, set, remove}
use rind.Flow.Run.{put_back, revert_branch, remove_facet, run, with_facets, matched}
use rind.Flow.Run.Keeps.{Holds, Keeps, for_each-Keeps, revert_branch-Keeps, run-Keeps}
use rind.Flow.Run.Fits.{Fits, Fits-IsKept}
use rind.Flow.Run.Ends.{facet_of, Falls, Ends, and_then-Ends}
use rind.Flow.Run.Parts.{
  Stays, Others, set_facet-Ends, gone, gone-Ends, put_back-Ends, put_back_effect,
}

proceed_done :
    (next : Step) (r : Returned) (st : FlowState)
    → (proceed next r st).0 ≡ done
    → proceed next r st ≡ next st
proceed_done next done st h = refl
proceed_done next (failed e) st h = absurd (ground arith)
proceed_done next unfinished st h = absurd (ground arith)

-- the branches that do not match
abbrev pub staying : Context → Option FlowMatchOperation → List FlowInstance → List FlowInstance
staying c filter_ branches = filter (λ (b : FlowInstance). not (matched c filter_ b)) branches

-- the calls of lower numbers leave what is to stay
pub calls :
    (c : Context) (rank : Text → ℕ)
    → Falls c rank
    → (fuel : ℕ) (name : Text) → rank name ≤ fuel
    → ((r : Request) → rank (facet_of r) < fuel → Ends c (Others rank (facet_of r)) (run c fuel r))
    → (r : Request) → rank (facet_of r) < rank name
    → Ends c (Stays rank name) (run c fuel r)
calls c rank falls fuel name le h r less st i =
    let (ended, same) = h r (omega (arith, le, less)) st i in
    (
      ended,
      (λ other m. same other (
        omega (arith, less, m),
        elim (Bool-cases (facet_of r == other)) [
          | inl one ↦ absurd (
              below
                (subst (λ (t : Text). rank t < rank name) ((==_iff (facet_of r) other).0 one) less)
                m)
          | inr apart ↦ apart
        ],
      )),
    )
  where
    below : {a b : ℕ} → a < b → b ≤ a → ⊥
    below p q = omega (arith, p, q)

module _ (c : Context) (rank : Text → ℕ) (falls : Falls c rank) (name : Text)
    (call : Request → Step) (keeps : (r : Request) → Keeps (Fits c) (call r))
    (ends : (r : Request) → rank (facet_of r) < rank name → Ends c (Stays rank name) (call r)) where
  loop-Keeps :
      (filter_ : Option FlowMatchOperation) (branches : List FlowInstance)
      → Keeps (Fits c) (gone c rank falls name call keeps ends filter_ branches)
  loop-Keeps filter_ branches =
      for_each-Keeps (Fits c) (revert_branch c call name) (filter (matched c filter_) branches)
        (revert_branch-Keeps c (Fits c) (Fits-IsKept c) call keeps name)

  remove_facet-Ends :
      (filter_ : Option FlowMatchOperation)
      → Ends c (Others rank name) (remove_facet c call name filter_)
  unfolding remove_facet
  remove_facet-Ends filter_ st i = elim (Option-cases (Map.get name st.facets)) [
    | inl missing ↦ rw (missing, remove_facet) ((λ e. cc), (λ other m. refl))
    | inr (branches, found) ↦
        let fits : Fits c name branches = get-AllEntries (Fits c) name st.facets i found in
        let loop = gone c rank falls name call keeps ends filter_ branches in
        let weaker : Ends c (Others rank name) loop = λ st' i'.
          let (ended, same) =
            gone-Ends c rank falls name call keeps ends filter_ branches fits st' i' in
          (ended, (λ other m. same other m.0)) in
        let (ended, after) =
          and_then-Ends c (Others rank name) loop (put_back name (staying c filter_ branches))
            (loop-Keeps filter_ branches) weaker
            (put_back-Ends c rank falls name call keeps ends (staying c filter_ branches))
            (with_facets (Map.remove name st.facets) st)
            (remove-AllEntries (Fits c) name st.facets i) in
        rw (found, remove_facet)
          (
            ended,
            (λ other m. after other m ∙ ground (arith, Map.get-remove name other st.facets, m.1)),
          )
  ]

  -- what a removal that succeeds leaves of the facet
  pub remove_facet_effect :
      (filter_ : Option FlowMatchOperation) (branches : List FlowInstance) (st : FlowState)
      → Holds (Fits c) st
      → Map.get name st.facets ≡ some branches
      → (remove_facet c call name filter_ st).0 ≡ done
      → Map.get name (remove_facet c call name filter_ st).1.facets ≡ (
          if is_empty (staying c filter_ branches) then none else some (staying c filter_ branches))
  unfolding remove_facet and_then
  remove_facet_effect filter_ branches st i found success =
      let fits : Fits c name branches = get-AllEntries (Fits c) name st.facets i found in
      let loop = gone c rank falls name call keeps ends filter_ branches in
      let start = with_facets (Map.remove name st.facets) st in
      let (ended, same) =
        gone-Ends c rank falls name call keeps ends filter_ branches fits start
          (remove-AllEntries (Fits c) name st.facets i) in
      let is : remove_facet c call name filter_ st
          ≡ proceed (put_back name (staying c filter_ branches)) (loop start).0 (loop start).1 =
        rw (found, remove_facet) refl in
      let put =
        proceed_done (put_back name (staying c filter_ branches)) (loop start).0 (loop start).1
          (ap (λ (r : Returned × FlowState). r.0) (sym is) ∙ success) in
      let there =
        put_back_effect c rank falls name call keeps ends (staying c filter_ branches)
          (loop start).1 name in
      let before = same name (omega arith) in
      rw (is, put)
        (ground (arith, there.1, before, Map.get-remove name name st.facets, ==_refl name))

pub run-Ends :
    (c : Context) (rank : Text → ℕ)
    → Falls c rank
    → (fuel : ℕ) (request : Request) → rank (facet_of request) < fuel
    → Ends c (Others rank (facet_of request)) (run c fuel request)
unfolding run
run-Ends c rank falls zero request lt st i = absurd (omega (arith, lt))
run-Ends c rank falls (suc fuel) (set name payload) lt st i =
    set_facet-Ends c rank falls name (run c fuel) (run-Keeps c (Fits c) (Fits-IsKept c) fuel)
      (calls c rank falls fuel name (omega (arith, lt))
        (λ r less. run-Ends c rank falls fuel r less))
      payload st i
run-Ends c rank falls (suc fuel) (remove name filter_) lt st i =
    remove_facet-Ends c rank falls name (run c fuel) (run-Keeps c (Fits c) (Fits-IsKept c) fuel)
      (calls c rank falls fuel name (omega (arith, lt))
        (λ r less. run-Ends c rank falls fuel r less))
      filter_ st i

-- Where the branches of the facets fit and a number falls from each facet to those that the two
-- indexes have for it, setting or removing a facet comes back with more calls inside of each other
-- than the number of the facet.
pub run_ends :
    (c : Context) (rank : Text → ℕ)
    → Falls c rank
    → (fuel : ℕ) (request : Request) → rank (facet_of request) < fuel
    → (st : FlowState) → AllEntries (Fits c) st.facets
    → (run c fuel request st).0 ≢ unfinished
run_ends c rank falls fuel request lt st i = (run-Ends c rank falls fuel request lt st i).0
