-- ===== src/Services/Branching/Wanted.antt =====
-- The branches that are wanted: what `only`, `except` and the running instances let through.
use rind.Prelude.{
  All, any, ◌&&◌, not, ◌==◌, ==_iff, ◌≡◌, refl, arith, Bool, true, false, Option, none, some, List,
  [], ◌∷◌, Bool-cases, inl, inr,
}
use rind.Text.{Text, text_eq}
use rind.Payload.{FlowPayload}
use rind.Services.{ChildInstance, BranchingConfig}
use rind.Services.Instances.{is_running}
use rind.Services.Branching.{let_through, runs_key}
use rind.Json.Mem.{Mem, any_member, any-Mem}

none_running :
    (key : Text) (insts : List ChildInstance)
    → any (λ i. i.key == key && is_running i.state) insts ≡ false
    → All (λ i. i.key ≡ key → is_running i.state ≡ false) insts
none_running key [] h = tt
none_running key (i ∷ insts) h = elim (Bool-cases (i.key == key && is_running i.state)) [
  | inl e ↦ let k = rw e at h in cc
  | inr e ↦ (λ same. ground (arith, (==_iff i.key key).1 same), none_running key insts (rw e at h))
]

nor_running :
    (key : Text) (insts : List ChildInstance)
    → All (λ i. i.key ≡ key → is_running i.state ≡ false) insts
    → any (λ i. i.key == key && is_running i.state) insts ≡ false
nor_running key [] h = refl
nor_running key (i ∷ insts) h =
    let rest = nor_running key insts h.1 in
    elim (Bool-cases (i.key == key)) [
      | inl e ↦ rw (e, h.0 ((==_iff i.key key).0 e)) rest
      | inr e ↦ rw e rest
    ]

module _ (key_of : FlowPayload → Option Text) (matches : Text → Text → Bool) where
  -- one of the specs matches the key
  abbrev pub Matched : Text → List Text → Type 0
  Matched key specs = (spec : Text) × Mem spec specs × (matches spec key ≡ true)

  abbrev pub IsLet : Option (List Text) → Text → Type 0
  IsLet none key = Unit {0}
  IsLet (some onlys) key = Matched key onlys

  abbrev pub IsSpared : Option (List Text) → Text → Type 0
  IsSpared none key = Unit {0}
  IsSpared (some excepts) key = ¬ Matched key excepts

  -- No instance of the key runs, a spec of `only` matches the key, and none of `except`.
  abbrev pub IsWanted : BranchingConfig → List ChildInstance → Text × FlowPayload → Type 0
  IsWanted config insts (key, payload) =
      All (λ i. i.key ≡ key → is_running i.state ≡ false) insts
      × IsLet config.only key
      × IsSpared config.except key

  -- the two tests of `let_through`
  abbrev lets : Option (List Text) → Text → Bool
  lets only key = elim only [ none ↦ true | some onlys ↦ any (λ spec. matches spec key) onlys ]

  abbrev spares : Option (List Text) → Text → Bool
  spares except key = elim except [
    | none ↦ true
    | some excepts ↦ not (any (λ spec. matches spec key) excepts)
  ]

  lets-IsLet : (only : Option (List Text)) (key : Text) → lets only key ≡ true → IsLet only key
  lets-IsLet none key h = tt
  lets-IsLet (some onlys) key h = any_member (λ spec. matches spec key) onlys h

  IsLet-lets : (only : Option (List Text)) (key : Text) → IsLet only key → lets only key ≡ true
  IsLet-lets none key h = refl
  IsLet-lets (some onlys) key (spec, m, e) = any-Mem (λ s. matches s key) spec m e

  spares-IsSpared :
      (except : Option (List Text)) (key : Text) → spares except key ≡ true → IsSpared except key
  spares-IsSpared none key h = tt
  spares-IsSpared (some excepts) key h =
      λ found. let k = rw (any-Mem (λ s. matches s key) found.0 found.1 found.2) at h in cc

  IsSpared-spares :
      (except : Option (List Text)) (key : Text) → IsSpared except key → spares except key ≡ true
  IsSpared-spares none key h = refl
  IsSpared-spares (some excepts) key h =
      elim (Bool-cases (any (λ spec. matches spec key) excepts)) [
        | inl e ↦ absurd (h (any_member (λ spec. matches spec key) excepts e))
        | inr e ↦ rw e refl
      ]

  -- the test of `wanted`
  abbrev pub lets_start : BranchingConfig → List ChildInstance → Text → Bool
  lets_start config insts key =
      not (runs_key key_of matches key insts) && let_through key_of matches config key

  three : (b c d : Bool) → (not b && (c && d)) ≡ true → (b ≡ false) × (c ≡ true) × (d ≡ true)
  three b c d h = ground arith

  pub lets_start-IsWanted :
      (config : BranchingConfig) (insts : List ChildInstance) (key : Text) (payload : FlowPayload)
      → lets_start config insts key ≡ true
      → IsWanted config insts (key, payload)
  unfolding let_through runs_key
  lets_start-IsWanted config insts key payload h =
      let t =
        three (any (λ i. i.key == key && is_running i.state) insts) (lets config.only key)
          (spares config.except key) h in
      (
        none_running key insts t.0,
        lets-IsLet config.only key t.1,
        spares-IsSpared config.except key t.2,
      )

  pub IsWanted-lets_start :
      (config : BranchingConfig) (insts : List ChildInstance) (key : Text) (payload : FlowPayload)
      → IsWanted config insts (key, payload)
      → lets_start config insts key ≡ true
  unfolding let_through runs_key
  IsWanted-lets_start config insts key payload (free, l, s) =
      rw
        (
          nor_running key insts free,
          IsLet-lets config.only key l,
          IsSpared-spares config.except key s,
        )
        refl
