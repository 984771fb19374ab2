-- ===== src/Services/Triggering/Ends.antt =====
-- When `evaluate_triggers` of crates/services/src/services.rs stops a service without branching.
use rind.Prelude.{
  ◌≡◌, ap, sym, ◌∙◌, refl, arith, any, not, ◌&&◌, ◌||◌, ◌⊎◌, inl, inr, Bool, true, false, Option,
  none, some, Option-cases, List,
}
use rind.Payload.{JsonCodec}
use rind.Matching.{FlowInstance, FlowItem, check_condition}
use rind.Facets.{Facets}
use rind.Flow.Impulses.{condition_matches, condition_is_active}
use rind.Json.Mem.{Mem, any-Mem, any_member}
use rind.Services.Triggering.{Declared, or_nil, should_stop, auto_stop_on_revert, ended_by}

module _ (codec : JsonCodec) (facets : Facets) (reverts : Bool) (event : Option FlowInstance) where
  -- the conditions that end the service
  abbrev pub ends : Declared → Bool
  ends d =
      should_stop codec facets event d.stop_on || auto_stop_on_revert codec facets reverts event d

  -- The specification: a condition of stop-on is met, or the change reverts, there is no stop-on,
  -- and the event is of a condition of start-on for which no facet stands any more.
  abbrev pub Ends : Option (List FlowItem) → Option (List FlowItem) → Type 0
  Ends stop_on start_on =
      ((conds : List FlowItem) × (cond : FlowItem) × (stop_on ≡ some conds)
        × Mem cond conds
        × (condition_matches codec facets cond event none ≡ true))
      ⊎ ((conds : List FlowItem) × (cond : FlowItem) × (e : FlowInstance) × (stop_on ≡ none)
          × (reverts ≡ true)
          × (event ≡ some e)
          × (start_on ≡ some conds)
          × Mem cond conds
          × (check_condition codec cond e ≡ true)
          × (condition_is_active codec facets cond none ≡ false))

  by_stop_on :
      (d : Declared) (conds : List FlowItem)
      → d.stop_on ≡ some conds
      → ends d ≡ any (λ cond. condition_matches codec facets cond event none) conds
  unfolding should_stop auto_stop_on_revert
  by_stop_on d conds at = rw (at, should_stop, auto_stop_on_revert) (ground arith)

  by_revert :
      (d : Declared) (e : FlowInstance)
      → d.stop_on ≡ none
      → event ≡ some e
      → ends d ≡ (reverts && ended_by codec facets e (or_nil d.start_on))
  unfolding should_stop auto_stop_on_revert
  by_revert d e at came = rw (at, came, should_stop, auto_stop_on_revert) refl

  by_nothing : (d : Declared) → d.stop_on ≡ none → event ≡ none → ends d ≡ false
  unfolding should_stop auto_stop_on_revert
  by_nothing d at came = rw (at, came, should_stop, auto_stop_on_revert) refl

  reverted :
      (conds : List FlowItem) (e : FlowInstance)
      → ended_by codec facets e conds ≡ true
      → (cond : FlowItem) × Mem cond conds
        × (check_condition codec cond e ≡ true)
        × (condition_is_active codec facets cond none ≡ false)
  unfolding ended_by
  reverted conds e h =
      let (cond, m, both) =
        any_member
          (λ cond. check_condition codec cond e && not (condition_is_active codec facets cond none))
          conds h in
      (cond, m, ground arith, ground arith)

  listed :
      (start_on : Option (List FlowItem)) (cond : FlowItem)
      → Mem cond (or_nil start_on)
      → (conds : List FlowItem) × (start_on ≡ some conds) × Mem cond conds
  listed none cond m = elim m [ ]
  listed (some conds) cond m = (conds, refl, m)

  pub ends-Ends : (d : Declared) → ends d ≡ true → Ends d.stop_on d.start_on
  ends-Ends d h = elim (Option-cases d.stop_on) [
    | inr (conds, at) ↦
        let (cond, m, met) =
          any_member (λ cond. condition_matches codec facets cond event none) conds
            (sym (by_stop_on d conds at) ∙ h) in
        inl (conds, cond, at, m, met)
    | inl at ↦ elim (Option-cases event) [
      | inl came ↦ absurd (let k = sym (by_nothing d at came) ∙ h in cc)
      | inr (e, came) ↦
          let both = sym (by_revert d e at came) ∙ h in
          let (cond, m, met, gone) = reverted (or_nil d.start_on) e (ground arith) in
          let (conds, from, inside) = listed d.start_on cond m in
          inr (conds, cond, e, at, ground arith, came, from, inside, met, gone)
    ]
  ]

  pub Ends-ends : (d : Declared) → Ends d.stop_on d.start_on → ends d ≡ true
  unfolding ended_by
  Ends-ends d (inl (conds, cond, at, m, met)) =
      by_stop_on d conds at
      ∙ any-Mem (λ cond. condition_matches codec facets cond event none) cond m met
  Ends-ends d (inr (conds, cond, e, at, undone, came, from, m, met, gone)) =
      let found =
        any-Mem
          (λ cond. check_condition codec cond e && not (condition_is_active codec facets cond none))
          cond m (rw (met, gone) refl) in
      by_revert d e at came
      ∙ ap (λ conds. reverts && ended_by codec facets e (or_nil conds)) from
      ∙ rw (undone, found) refl
