-- ===== src/Registry/Instances/Handles.antt =====
-- `singleton_handle` of crates/core/src/registry.rs, which takes the singletons of some keys out of
-- the instances, works on them, and puts them back.
pub mod Missing
pub mod Kept
use rind.Prelude.{
  Bool, true, false, ◌||◌, List, [], ◌∷◌, any, Option, none, some, if◌then◌else◌, ◌==◌,
}
use rind.Map
use rind.Text.{Text, text_eq}
use rind.Error.{CoreError, CoreResult, ok, err, ◌>>=◌, missing_field, type_mismatch, double_key}
use rind.Registry.Instances.{InstanceMap}

-- a key, and the test for the type of its singleton
abbrev pub Key {ℓ} : Type ℓ → Type ℓ
Key Obj = Text × (Obj → Bool)

abbrev pub Held {ℓ} : Type ℓ → Type ℓ
Held Obj = List (Key Obj × List Obj)

-- what is done with the singletons, which may change them and the other instances
abbrev pub Work {ℓ κ} : Type ℓ → Type κ → Type (ℓ ⊔ κ)
Work Obj R = List Obj → InstanceMap Obj → CoreResult R × List Obj × InstanceMap Obj

module _ {ℓ} {Obj : Type ℓ} where
  unfoldable pub is_key : Text → List (Key Obj) → Bool
  is_key name keys = any (λ k. k.0 == name) keys

  unfoldable pub has_double : List (Key Obj) → Bool
  unfolding is_key
  has_double [] = false
  has_double (k ∷ keys) = is_key k.0 keys || has_double keys

  -- the removals, of which one that fails ends the function
  unfoldable pub take_out :
      List (Key Obj) → InstanceMap Obj → CoreResult (Held Obj) × InstanceMap Obj
  take_out [] insts = (ok [], insts)
  take_out (k ∷ keys) insts = elim (Map.get k.0 insts) [
    | none ↦ (err (missing_field k.0), insts)
    | some objs ↦
        let rest = take_out keys (Map.remove k.0 insts) in
        (rest.0 >>= (λ held. ok ((k, objs) ∷ held)), rest.1)
  ]

  -- the first instance of each key, where it is of the type
  unfoldable pub firsts : Held Obj → CoreResult (List Obj)
  firsts [] = ok []
  firsts ((k, []) ∷ held) = err (missing_field k.0)
  firsts ((k, obj ∷ objs) ∷ held) =
      let rest = firsts held in
      if k.1 obj then rest >>= (λ os. ok (obj ∷ os)) else err type_mismatch

  -- an instance that is worked on is replaced by what it has become
  abbrev pub replaced : List Obj → List Obj → List Obj
  replaced (obj ∷ objs) (new ∷ news) = new ∷ objs
  replaced objs news = objs

  abbrev pub others : List Obj → List Obj
  others [] = []
  others (new ∷ news) = news

  unfoldable pub reinsert : Held Obj → List Obj → InstanceMap Obj → InstanceMap Obj
  reinsert [] news insts = insts
  reinsert ((k, objs) ∷ held) news insts =
      reinsert held (others news) (Map.insert k.0 (replaced objs news) insts)

  -- the call on what the removals have given
  unfoldable pub work_on {κ} :
      {R : Type κ}
      → Work Obj R
      → CoreResult (Held Obj) × InstanceMap Obj
      → CoreResult R × InstanceMap Obj
  unfolding firsts reinsert
  work_on f (err e, insts) = (err e, insts)
  work_on f (ok held, insts) = elim (firsts held) [
    | err e ↦ (err e, insts)
    | ok objs ↦ let worked = f objs insts in (worked.0, reinsert held worked.1 worked.2)
  ]

  unfoldable pub singleton_handle {κ} :
      {R : Type κ} → List (Key Obj) → Work Obj R → InstanceMap Obj → CoreResult R × InstanceMap Obj
  unfolding has_double take_out work_on
  singleton_handle keys f insts =
      if has_double keys then (err double_key, insts) else work_on f (take_out keys insts)
