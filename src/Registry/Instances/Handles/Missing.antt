-- ===== src/Registry/Instances/Handles/Missing.antt =====
-- What `singleton_handle` loses of the instances where a key has none.
use rind.Prelude.{
  ◌≡◌, refl, ◌∙◌, ap, arith, Bool, true, false, ◌||◌, none, some, List, [], ◌∷◌, ◌++◌,
  if◌then◌else◌, ◌==◌, ==_iff, Bool-cases, inl, inr, All,
}
use rind.Map
use rind.Text.{Text, text_eq}
use rind.Error.{err, missing_field}
use rind.Registry.Instances.{InstanceMap}
use rind.Registry.Instances.Handles.{
  Key, is_key, has_double, take_out, Work, work_on, singleton_handle,
}

pub neither : (b c : Bool) → (if b then true else c) ≡ false → (b ≡ false) × (c ≡ false)
neither true c h = cc
neither false c h = (refl, h)

none_of : (b c : Bool) → (b || c) ≡ false → (b ≡ false) × (c ≡ false)
none_of true c h = cc
none_of false c h = (refl, h)

module _ {ℓ} {Obj : Type ℓ} where
  -- the instances without those of the keys
  abbrev pub without : List (Key Obj) → InstanceMap Obj → InstanceMap Obj
  without [] insts = insts
  without (k ∷ keys) insts = without keys (Map.remove k.0 insts)

  get-without_kept :
      (name : Text) (keys : List (Key Obj)) (insts : InstanceMap Obj)
      → is_key name keys ≡ false
      → Map.get name (without keys insts) ≡ Map.get name insts
  unfolding is_key
  get-without_kept name [] insts h = refl
  get-without_kept name (k ∷ keys) insts h =
      ground
        (arith, get-without_kept name keys (Map.remove k.0 insts), Map.get-remove k.0 name insts)

  get-without :
      (name : Text) (keys : List (Key Obj)) (insts : InstanceMap Obj)
      → is_key name keys ≡ true
      → Map.get name (without keys insts) ≡ none
  unfolding is_key
  get-without name [] insts h = cc
  get-without name (k ∷ keys) insts h = elim (Bool-cases (is_key name keys)) [
    | inl later ↦ get-without name keys (Map.remove k.0 insts) later
    | inr never ↦
        get-without_kept name keys (Map.remove k.0 insts) never
        ∙ ground (arith, Map.get-remove k.0 name insts)
  ]

  pub single :
      (k : Key Obj) (keys : List (Key Obj))
      → has_double (k ∷ keys) ≡ false
      → (is_key k.0 keys ≡ false) × (has_double keys ≡ false)
  unfolding has_double
  single k keys h = none_of (is_key k.0 keys) (has_double keys) h

  not_key-append :
      (name : Text) (xs : List (Key Obj)) (k : Key Obj) (ys : List (Key Obj))
      → is_key name (xs ++ k ∷ ys) ≡ false
      → (is_key name xs ≡ false) × ((k.0 == name) ≡ false)
  unfolding is_key
  not_key-append name [] k ys h = (refl, (neither (k.0 == name) (is_key name ys) h).0)
  not_key-append name (x ∷ xs) k ys h =
      let first = neither (x.0 == name) (is_key name (xs ++ k ∷ ys)) h in
      let rest = not_key-append name xs k ys first.1 in (rw (first.0) rest.0, rest.1)

  pub get-remove_other :
      (name other : Text) (insts : InstanceMap Obj)
      → (other == name) ≡ false
      → Map.get other (Map.remove name insts) ≡ Map.get other insts
  get-remove_other name other insts h =
      let e = Map.get-remove name other insts in
      ground (arith, e, ==_iff name other, ==_iff other name)

  -- The key has instances.
  abbrev pub IsThere : InstanceMap Obj → Key Obj → Type ℓ
  IsThere insts k = (objs : List Obj) × (Map.get k.0 insts ≡ some objs)

  IsThere-remove :
      (name : Text) (keys : List (Key Obj)) (insts : InstanceMap Obj)
      → is_key name keys ≡ false
      → All (IsThere insts) keys
      → All (IsThere (Map.remove name insts)) keys
  unfolding is_key
  IsThere-remove name [] insts h there = tt
  IsThere-remove name (k ∷ keys) insts h ((objs, e), there) =
      let both = neither (k.0 == name) (is_key name keys) h in
      (
        (objs, get-remove_other name k.0 insts both.0 ∙ e),
        IsThere-remove name keys insts both.1 there,
      )

  take_out-missing :
      (before : List (Key Obj)) (k : Key Obj) (after : List (Key Obj)) (insts : InstanceMap Obj)
      → has_double (before ++ k ∷ after) ≡ false
      → All (IsThere insts) before
      → Map.get k.0 insts ≡ none
      → take_out (before ++ k ∷ after) insts ≡ (err (missing_field k.0), without before insts)
  unfolding take_out
  take_out-missing [] k after insts d there missing = rw (take_out, missing) refl
  take_out-missing (b ∷ before) k after insts d ((objs, e), there) missing =
      let both = single b (before ++ k ∷ after) d in
      let apart = not_key-append b.0 before k after both.0 in
      let rest =
        take_out-missing before k after (Map.remove b.0 insts) both.1
          (IsThere-remove b.0 before insts apart.0 there)
          (get-remove_other b.0 k.0 insts apart.1 ∙ missing) in
      rw (take_out, e, rest) refl

  handle-missing {κ} :
      {R : Type κ} (f : Work Obj R) (before : List (Key Obj)) (k : Key Obj) (after : List (Key Obj))
      (insts : InstanceMap Obj)
      → has_double (before ++ k ∷ after) ≡ false
      → All (IsThere insts) before
      → Map.get k.0 insts ≡ none
      → singleton_handle (before ++ k ∷ after) f insts
        ≡ (err (missing_field k.0), without before insts)
  unfolding singleton_handle work_on
  handle-missing f before k after insts d there missing =
      rw (singleton_handle, d)
        (ap (work_on f) (take_out-missing before k after insts d there missing))

  -- Where singleton_handle is called with different keys of which one has no instances and those
  -- before it have, it fails with MissingField of this key, and the instances of the keys before
  -- it are gone, while all others stay.
  pub singleton_handle-missing {κ} :
      {R : Type κ} (f : Work Obj R) (before : List (Key Obj)) (k : Key Obj) (after : List (Key Obj))
      (insts : InstanceMap Obj)
      → has_double (before ++ k ∷ after) ≡ false
      → All (IsThere insts) before
      → Map.get k.0 insts ≡ none
      → ((singleton_handle (before ++ k ∷ after) f insts).0 ≡ err (missing_field k.0))
        × ((name : Text)
            → Map.get name (singleton_handle (before ++ k ∷ after) f insts).1
              ≡ (if is_key name before then none else Map.get name insts))
  singleton_handle-missing f before k after insts d there missing =
      let e = handle-missing f before k after insts d there missing in
      (
        ap (λ p. p.0) e,
        λ name.
            ap (λ p. Map.get name p.1) e
            ∙ ground (arith, get-without name before insts, get-without_kept name before insts),
      )
