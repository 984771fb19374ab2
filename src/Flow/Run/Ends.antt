-- ===== src/Flow/Run/Ends.antt =====
-- The calls of crates/flow/src/flow.rs inside of each other come to an end where the indexes have no
-- cycle.
use rind.Prelude.{
  ap, ◌∙◌, ℕ, ◌<◌, ◌≤◌, ◌≡◌, ◌≢◌, refl, Bool, true, false, Option, none, some, List, [], ◌∷◌, subst,
  sym, arith, Option-cases, inl, inr, All,
}
use rind.Map
use rind.Set
use rind.Text.{Text, text_eq}
use rind.Payload.{FlowPayload}
use rind.Matching.{FlowInstance}
use rind.Flow.{
  FlowAction, apply, revert, FlowFacet, FlowState, InverseBranchingConfig, Returned, done, failed,
  unfinished,
}
use rind.Flow.Reconcile.{
  skip, Context, Step, proceed, and_then, settle, ignore_error, for_each, Request, set, remove,
  transcendence_request, reconcile_transcendence, call_if, switch, request_for,
  transcendence_payload, should_activate, currently_active, inverse_loop, inverse_request,
  inverse_step, inverse_payloads, stop_on_of, reconcile_inverse_transcendence_for_source,
}
use rind.Flow.Run.{leave}
use rind.Flow.Run.Keeps.{Holds, Keeps, call_if-Keeps, inverse_loop-Keeps}
use rind.Flow.Run.Fits.{Fits, Fits-IsKept}

-- the facet that a request is about
abbrev pub facet_of : Request → Text
facet_of (set name payload) = name
facet_of (remove name filter_) = name

-- A number falls from each facet to those that the indexes have for it.
abbrev pub Falls : Context → (Text → ℕ) → Type 0
Falls c rank =
    ((name target : Text)
      → Set.contains target (Map.get_or name [] c.transcendence_index) ≡ true
      → rank target < rank name)
    × ((name target : Text)
        → Set.contains target (Map.get_or name [] c.inverse_transcendence_index) ≡ true
        → rank target < rank name)

some-injective : {A : Type 0} {x y : A} → some x ≡ some y → x ≡ y
some-injective h = cc

members-All :
    (Q : Text → Type 0) (xs : List Text) → ((x : Text) → Set.contains x xs ≡ true → Q x) → All Q xs
members-All Q [] h = tt
members-All Q (x ∷ xs) h =
    (h x (Set.contains-cons_self x xs), members-All Q xs (λ y m. h y (Set.contains-cons y x xs m)))

module _ (c : Context) (keep : Text → Type 0) where
  -- the facets that are to stay are as they were
  abbrev pub Same : FlowState → FlowState → Type 0
  Same st st' = (other : Text) → keep other → Map.get other st'.facets ≡ Map.get other st.facets

  -- The step comes back from every state whose facets fit, and leaves those facets as they were.
  abbrev pub Ends : Step → Type 0
  Ends step =
      (st : FlowState) → Holds (Fits c) st → ((step st).0 ≢ unfinished) × Same st (step st).1

  proceed-Ends :
      (next : Step) (r : Returned) (st st' : FlowState)
      → r ≢ unfinished
      → Same st st'
      → Holds (Fits c) st'
      → Ends next
      → ((proceed next r st').0 ≢ unfinished) × Same st (proceed next r st').1
  proceed-Ends next done st st' h same i k =
      let (ended, after) = k st' i in (ended, λ other m. after other m ∙ same other m)
  proceed-Ends next (failed e) st st' h same i k = (h, same)
  proceed-Ends next unfinished st st' h same i k = (h, same)

  pub and_then-Ends :
      (one two : Step) → Keeps (Fits c) one → Ends one → Ends two → Ends (and_then one two)
  unfolding and_then
  and_then-Ends one two keeps h k st i =
      let (ended, same) = h st i in
      proceed-Ends two (one st).0 st (one st).1 ended same (keeps st i) k

  settle-Ends : (r : Returned) → r ≢ unfinished → settle r ≢ unfinished
  settle-Ends done h = h
  settle-Ends (failed e) h = λ (e : done ≡ unfinished). cc
  settle-Ends unfinished h = h

  pub ignore_error-Ends : (one : Step) → Ends one → Ends (ignore_error one)
  unfolding ignore_error
  ignore_error-Ends one h st i = let (ended, same) = h st i in (settle-Ends (one st).0 ended, same)

  pub skip-Ends : Ends skip
  skip-Ends st i = ((λ (e : done ≡ unfinished). cc), (λ other m. refl))

  pub leave-Ends : (key : Text) → Ends (λ st. (done, leave key st))
  leave-Ends key st i = ((λ (e : done ≡ unfinished). cc), (λ other m. refl))

  pub for_each-Ends :
      {A : Type 0} (body : A → Step) (xs : List A)
      → ((x : A) → Keeps (Fits c) (body x))
      → All (λ x. Ends (body x)) xs
      → Ends (for_each body xs)
  unfolding for_each
  for_each-Ends body [] keeps h = skip-Ends
  for_each-Ends body (x ∷ xs) keeps h =
      and_then-Ends (body x) (for_each body xs) (keeps x) h.0 (for_each-Ends body xs keeps h.1)

module _ (c : Context) where
  request_for-facet_of :
      (action : FlowAction) (target : Text) (p : FlowPayload)
      → facet_of (request_for c action target p) ≡ target
  request_for-facet_of apply target p = refl
  request_for-facet_of revert target p = refl

  switch-facet_of :
      (on active : Bool) (target : Text) (p : FlowPayload) (r : Request)
      → switch c on active target p ≡ some r
      → facet_of r ≡ target
  switch-facet_of true true target p r h = absurd (ground arith)
  switch-facet_of true false target p r h =
      ap facet_of (sym (some-injective h)) ∙ request_for-facet_of apply target p
  switch-facet_of false true target p r h =
      ap facet_of (sym (some-injective h)) ∙ request_for-facet_of revert target p
  switch-facet_of false false target p r h = absurd (ground arith)

  transcendence_request-facet_of :
      (source : FlowInstance) (action : FlowAction) (target : Text) (r : Request)
      → transcendence_request c source action target ≡ some r
      → facet_of r ≡ target
  unfolding transcendence_request
  transcendence_request-facet_of source action target r h =
      elim (Option-cases (transcendence_payload c source target)) [
        | inl missing ↦ absurd (ground (arith, h, missing))
        | inr (p, found) ↦
            let is : some (request_for c action target p) ≡ some r = ground (arith, h, found) in
            ap facet_of (sym (some-injective is)) ∙ request_for-facet_of action target p
      ]

  inverse_request-facet_of :
      (source : FlowInstance) (action : FlowAction) (target : Text) (def : FlowFacet)
      (deps : List InverseBranchingConfig) (p : FlowPayload) (st : FlowState) (r : Request)
      → inverse_request c source action target def deps p st ≡ some r
      → facet_of r ≡ target
  unfolding inverse_request
  inverse_request-facet_of source action target def deps p st r h =
      switch-facet_of (should_activate c source action def deps p st)
        (currently_active c target p st) target p r h

  module _ (rank : Text → ℕ) (falls : Falls c rank) (bound : ℕ) (keep : Text → Type 0)
      (call : Request → Step) (keeps : (r : Request) → Keeps (Fits c) (call r))
      (ends : (r : Request) → rank (facet_of r) < bound → Ends c keep (call r)) where
    call_if-Ends :
        (target : Text) (o : Option Request)
        → rank target < bound
        → ((r : Request) → o ≡ some r → facet_of r ≡ target)
        → Ends c keep (call_if call o)
    call_if-Ends target none lt h st i = skip-Ends c keep st i
    call_if-Ends target (some r) lt h st i =
        ends r (subst (λ (t : Text). rank t < bound) (sym (h r refl)) lt) st i

    pub reconcile-Ends :
        (source : FlowInstance) (action : FlowAction)
        → rank source.name ≤ bound
        → Ends c keep (reconcile_transcendence c call source action)
    unfolding reconcile_transcendence
    reconcile-Ends source action le st i =
        for_each-Ends c keep (λ target. call_if call (transcendence_request c source action target))
          (Map.get_or source.name [] c.transcendence_index)
          (λ target.
            call_if-Keeps c (Fits c) (Fits-IsKept c) call keeps
              (transcendence_request c source action target))
          (members-All
            (λ target. Ends c keep (call_if call (transcendence_request c source action target)))
            (Map.get_or source.name [] c.transcendence_index)
            (λ target m.
              call_if-Ends target (transcendence_request c source action target)
                (omega (arith, falls.0 source.name target m, le))
                (transcendence_request-facet_of source action target)))
          st i

    inverse_loop-Ends :
        (source : FlowInstance) (action : FlowAction) (target : Text)
        (o : Option (FlowFacet × List InverseBranchingConfig))
        → rank target < bound
        → Ends c keep (inverse_loop c call source action target o)
    inverse_loop-Ends source action target none lt st i = skip-Ends c keep st i
    inverse_loop-Ends source action target (some (def, deps)) lt st i =
        for_each-Ends c keep (inverse_step c call source action target def deps)
          (inverse_payloads c target def st)
          (λ p st' i'.
            call_if-Keeps c (Fits c) (Fits-IsKept c) call keeps
              (inverse_request c source action target def deps p st') st' i')
          (everything (inverse_payloads c target def st)) st i
      where
        everything :
            (ps : List FlowPayload)
            → All (λ p. Ends c keep (inverse_step c call source action target def deps p)) ps
        everything [] = tt
        everything (p ∷ ps) = (
          (λ st' i'.
              call_if-Ends target (inverse_request c source action target def deps p st') lt
                (inverse_request-facet_of source action target def deps p st') st' i'),
          everything ps,
        )

    pub reconcile_inverse-Ends :
        (source : FlowInstance) (action : FlowAction)
        → rank source.name ≤ bound
        → Ends c keep (reconcile_inverse_transcendence_for_source c call source action)
    unfolding reconcile_inverse_transcendence_for_source
    reconcile_inverse-Ends source action le st i =
        for_each-Ends c keep
          (λ target. inverse_loop c call source action target (stop_on_of c target))
          (Map.get_or source.name [] c.inverse_transcendence_index)
          (λ target.
            inverse_loop-Keeps c (Fits c) (Fits-IsKept c) call keeps source action target
              (stop_on_of c target))
          (members-All
            (λ target. Ends c keep (inverse_loop c call source action target (stop_on_of c target)))
            (Map.get_or source.name [] c.inverse_transcendence_index)
            (λ target m.
              inverse_loop-Ends source action target (stop_on_of c target)
                (omega (arith, falls.1 source.name target m, le))))
          st i
