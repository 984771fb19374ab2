-- ===== src/Services/Branching/Chosen.antt =====
-- The branches that the loop of `evaluate_triggers` chooses, without the loop.
use rind.Prelude.{
  map, ℕ, zero, suc, ◌-◌, ◌≤◌, ◌<◌, leb→le, not_leb→lt, ◌≡◌, refl, sym, arith, Bool, true, false,
  ◌||◌, Option, none, some, List, [], ◌∷◌, take, length, leb, Bool-cases, Option-cases, inl, inr,
  if◌then◌else◌,
}
use rind.Text.{Text, text_eq}
use rind.Payload.{FlowPayload}
use rind.Matching.{FlowInstance}
use rind.Services.{ChildInstance, BranchingConfig, ServiceBranchContext}
use rind.Services.Branching.{wanted, at_limit, context_for, branches_to_start}
use rind.Services.Branching.Wanted.{IsWanted, lets_start, lets_start-IsWanted, IsWanted-lets_start}
use mathlib.Core.Option

-- how many there is room for
abbrev pub within {ℓ} : {A : Type ℓ} → Option ℕ → ℕ → ℕ → List A → List A
within none running started xs = xs
within (some max) running started xs = if leb max running then [] else take (max - started) xs

second : (b c : Bool) → b ≡ false → (b || c) ≡ true → c ≡ true
second true c h e = cc
second false c h e = e

neither : (b c : Bool) → (b || c) ≡ false → (b ≡ false) × (c ≡ false)
neither true c h = cc
neither false c h = (refl, h)

module _ {ℓ} {A : Type ℓ} where
  take_nil : (n : ℕ) → take {A = A} n [] ≡ []
  take_nil zero = refl
  take_nil (suc n) = refl

  within_nil : (max : Option ℕ) (running started : ℕ) → within {A = A} max running started [] ≡ []
  within_nil none r s = refl
  within_nil (some m) r s = elim (Bool-cases (leb m r)) [
    | inl h ↦ rw h refl
    | inr h ↦ rw h (take_nil (m - s))
  ]

  take_spent : (m s : ℕ) (xs : List A) → m ≤ s → take (m - s) xs ≡ []
  take_spent m s xs h = let e : m - s ≡ 0 = omega arith in rw e refl

  take_left :
      (m s : ℕ) (x : A) (xs : List A) → s < m → take (m - s) (x ∷ xs) ≡ x ∷ take (m - suc s) xs
  take_left m s x xs h = let e : m - s ≡ suc (m - suc s) = omega arith in rw e refl

  within_full :
      (max : Option ℕ) (insts : List ChildInstance) (started : ℕ) (xs : List A)
      → at_limit max insts started ≡ true
      → within max (length insts) started xs ≡ []
  unfolding at_limit
  within_full none insts s xs h = cc
  within_full (some m) insts s xs h = elim (Bool-cases (leb m (length insts))) [
    | inl e ↦ rw e refl
    | inr e ↦ rw e (take_spent m s xs (leb→le m s (second (leb m (length insts)) (leb m s) e h)))
  ]

  within_room :
      (max : Option ℕ) (insts : List ChildInstance) (started : ℕ) (x : A) (xs : List A)
      → at_limit max insts started ≡ false
      → within max (length insts) started (x ∷ xs) ≡ x ∷ within max (length insts) (suc started) xs
  unfolding at_limit
  within_room none insts s x xs h = refl
  within_room (some m) insts s x xs h =
      let (e, f) = neither (leb m (length insts)) (leb m s) h in
      rw e (take_left m s x xs (not_leb→lt m s f))

-- The specification: a list is kept of another in its order, namely what has the property.
pub data Kept {ℓ} {A : Type ℓ} (P : A → Type 0) : List A → List A → Type ℓ where
  nothing : Kept P [] []
  keep : {x : A} {xs ys : List A} → P x → Kept P xs ys → Kept P (x ∷ xs) (x ∷ ys)
  leave : {x : A} {xs ys : List A} → ¬ P x → Kept P xs ys → Kept P (x ∷ xs) ys

module _ (key_of : FlowPayload → Option Text) (matches : Text → Text → Bool) where
  -- the payloads that have a key, in the order of the branches
  unfoldable pub keyed : List FlowInstance → List (Text × FlowPayload)
  keyed [] = []
  keyed (branch ∷ branches) = elim (key_of branch.payload) [
    | none ↦ keyed branches
    | some key ↦ (key, branch.payload) ∷ keyed branches
  ]

  abbrev pub contexts : List (Text × FlowPayload) → List ServiceBranchContext
  contexts bs = map (λ b. context_for b.0 b.1) bs

  from_started :
      (config : BranchingConfig) (insts : List ChildInstance) (started : ℕ)
      (branches : List FlowInstance)
      → (bs : List (Text × FlowPayload)) × Kept
          (IsWanted key_of matches config insts)
          (keyed branches)
          bs
        × (branches_to_start key_of matches config insts started branches
            ≡ within config.max_instances (length insts) started (contexts bs))
  unfolding branches_to_start keyed wanted Option.bind
  from_started config insts started [] =
      ([], nothing, sym (within_nil config.max_instances (length insts) started))
  from_started config insts started (branch ∷ branches) =
      let (bs, kept, e) = from_started config insts started branches in
      elim (Option-cases (key_of branch.payload)) [
        | inl w ↦ (bs, rw (keyed, w) kept, rw (branches_to_start, wanted, w) e)
        | inr (key, w) ↦ elim (Bool-cases (lets_start key_of matches config insts key)) [
          | inr p ↦ (
            bs,
            rw (keyed, w)
                (leave
                  (λ h.
                    let k =
                      rw (IsWanted-lets_start key_of matches config insts key branch.payload h) at
                        p in
                    cc)
                  kept),
            rw (branches_to_start, wanted, w, p) e,
          )
          | inl p ↦
              let (cs, kept_on, e_on) = from_started config insts (suc started) branches in
              let first = lets_start-IsWanted key_of matches config insts key branch.payload p in
              elim (Bool-cases (at_limit config.max_instances insts started)) [
                | inl full ↦ (
                  (key, branch.payload) ∷ bs,
                  rw (keyed, w) (keep first kept),
                  rw (branches_to_start, wanted, w, p, full)
                      (sym (within_full config.max_instances insts started _ full)),
                )
                | inr room ↦ (
                  (key, branch.payload) ∷ cs,
                  rw (keyed, w) (keep first kept_on),
                  rw
                      (
                        branches_to_start,
                        wanted,
                        w,
                        p,
                        room,
                        within_room config.max_instances insts started
                            (context_for key branch.payload) (contexts cs) room,
                        e_on,
                      )
                      refl,
                )
              ]
        ]
      ]

  -- Of the branches with a key, in their order, those are kept of whose key no instance runs, that
  -- a spec of only matches where it is given, and none of except. evaluate_triggers starts all of
  -- the kept ones where there is no limit, none where the limit is not above the number of
  -- instances, and else the first ones up to the limit.
  pub branches_to_start-Kept :
      (config : BranchingConfig) (insts : List ChildInstance) (branches : List FlowInstance)
      → (bs : List (Text × FlowPayload)) × Kept
          (IsWanted key_of matches config insts)
          (keyed branches)
          bs
        × (branches_to_start key_of matches config insts 0 branches
            ≡ within config.max_instances (length insts) 0 (contexts bs))
  branches_to_start-Kept config insts branches = from_started config insts 0 branches
