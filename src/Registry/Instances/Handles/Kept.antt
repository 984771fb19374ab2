-- ===== src/Registry/Instances/Handles/Kept.antt =====
-- What `singleton_handle` leaves of the instances where every key has one of its type.
use rind.Prelude.{
  ◌≡◌, refl, sym, ◌∙◌, ap, subst, arith, true, false, some, List, [], ◌∷◌, ◌==◌, ==_iff,
}
use rind.Map
use rind.Text.{Text, text_eq}
use rind.Error.{CoreResult, ok}
use rind.Registry.Instances.{InstanceMap}
use rind.Registry.Instances.Handles.{
  Key, Held, is_key, has_double, take_out, firsts, replaced, others, reinsert, Work, work_on,
  singleton_handle,
}
use rind.Registry.Instances.Handles.Missing.{without, neither, single, get-remove_other}

module _ {ℓ} {Obj : Type ℓ} where
  -- the keys, with the first instance of each and those behind it
  abbrev pub keys_of : List (Key Obj × Obj × List Obj) → List (Key Obj)
  keys_of [] = []
  keys_of ((k, obj, rest) ∷ asked) = k ∷ keys_of asked

  abbrev pub objs_of : List (Key Obj × Obj × List Obj) → List Obj
  objs_of [] = []
  objs_of ((k, obj, rest) ∷ asked) = obj ∷ objs_of asked

  abbrev held_of : List (Key Obj × Obj × List Obj) → Held Obj
  held_of [] = []
  held_of ((k, obj, rest) ∷ asked) = (k, obj ∷ rest) ∷ held_of asked

  -- The instances are there, and the first is of the type.
  abbrev pub Ready : InstanceMap Obj → List (Key Obj × Obj × List Obj) → Type ℓ
  Ready insts [] = Unit {ℓ}
  Ready insts ((k, obj, rest) ∷ asked) =
      (Map.get k.0 insts ≡ some (obj ∷ rest)) × (k.1 obj ≡ true) × Ready insts asked

  Ready-remove :
      (name : Text) (insts : InstanceMap Obj) (asked : List (Key Obj × Obj × List Obj))
      → is_key name (keys_of asked) ≡ false
      → Ready insts asked
      → Ready (Map.remove name insts) asked
  unfolding is_key
  Ready-remove name insts [] h ready = tt
  Ready-remove name insts ((k, obj, rest) ∷ asked) h (e, fits, ready) =
      let both = neither (k.0 == name) (is_key name (keys_of asked)) h in
      (get-remove_other name k.0 insts both.0 ∙ e, fits, Ready-remove name insts asked both.1 ready)

  firsts-Ready :
      (insts : InstanceMap Obj) (asked : List (Key Obj × Obj × List Obj))
      → Ready insts asked
      → firsts (held_of asked) ≡ ok (objs_of asked)
  unfolding firsts
  firsts-Ready insts [] ready = refl
  firsts-Ready insts ((k, obj, rest) ∷ asked) (e, fits, ready) =
      rw (firsts, fits, firsts-Ready insts asked ready) refl

  take_out-Ready :
      (insts : InstanceMap Obj) (asked : List (Key Obj × Obj × List Obj))
      → has_double (keys_of asked) ≡ false
      → Ready insts asked
      → take_out (keys_of asked) insts ≡ (ok (held_of asked), without (keys_of asked) insts)
  unfolding take_out
  take_out-Ready insts [] d ready = refl
  take_out-Ready insts ((k, obj, rest) ∷ asked) d (e, fits, ready) =
      let both = single k (keys_of asked) d in
      let later =
        take_out-Ready (Map.remove k.0 insts) asked both.1
          (Ready-remove k.0 insts asked both.0 ready) in
      rw (take_out, e, later) refl

  get-reinsert_other :
      (name : Text) (asked : List (Key Obj × Obj × List Obj)) (news : List Obj)
      (insts : InstanceMap Obj)
      → is_key name (keys_of asked) ≡ false
      → Map.get name (reinsert (held_of asked) news insts) ≡ Map.get name insts
  unfolding reinsert is_key
  get-reinsert_other name [] news insts h = refl
  get-reinsert_other name ((k, obj, rest) ∷ asked) news insts h =
      let both = neither (k.0 == name) (is_key name (keys_of asked)) h in
      get-reinsert_other name asked (others news)
        (Map.insert k.0 (replaced (obj ∷ rest) news) insts) both.1
      ∙ ground (arith, Map.get-insert k.0 name (replaced (obj ∷ rest) news) insts)

  -- Each key has its instances, the first as it has become.
  abbrev pub Back : List (Key Obj × Obj × List Obj) → List Obj → InstanceMap Obj → Type ℓ
  Back [] news insts = Unit {ℓ}
  Back ((k, obj, rest) ∷ asked) news insts =
      (Map.get k.0 insts ≡ some (replaced (obj ∷ rest) news)) × Back asked (others news) insts

  reinsert-Back :
      (asked : List (Key Obj × Obj × List Obj)) (news : List Obj) (insts : InstanceMap Obj)
      → has_double (keys_of asked) ≡ false
      → Back asked news (reinsert (held_of asked) news insts)
  unfolding reinsert
  reinsert-Back [] news insts d = tt
  reinsert-Back ((k, obj, rest) ∷ asked) news insts d =
      let both = single k (keys_of asked) d in
      let here = replaced (obj ∷ rest) news in
      (
        get-reinsert_other k.0 asked (others news) (Map.insert k.0 here insts) both.0
            ∙ ground (arith, Map.get-insert k.0 k.0 here insts, ==_iff k.0 k.0),
        reinsert-Back asked (others news) (Map.insert k.0 here insts) both.1,
      )

  handle-Ready {κ} :
      {R : Type κ} (f : Work Obj R) (asked : List (Key Obj × Obj × List Obj))
      (insts : InstanceMap Obj)
      → has_double (keys_of asked) ≡ false
      → Ready insts asked
      → singleton_handle (keys_of asked) f insts ≡ (
        (f (objs_of asked) (without (keys_of asked) insts)).0,
        reinsert
            (held_of asked)
            (f (objs_of asked) (without (keys_of asked) insts)).1
            (f (objs_of asked) (without (keys_of asked) insts)).2,
      )
  unfolding singleton_handle work_on
  handle-Ready f asked insts d ready =
      rw (singleton_handle, d)
        (ap (work_on f) (take_out-Ready insts asked d ready)
          ∙ rw (work_on, firsts-Ready insts asked ready) refl)

  -- Where the keys are different and the first instance of each is there and of its type,
  -- singleton_handle gives the result of the function, be it an error. Afterwards each key has its
  -- instances with the first as the function has left it, and every other key what the function
  -- has left under it.
  pub singleton_handle-Back {κ} :
      {R : Type κ} (f : Work Obj R) (asked : List (Key Obj × Obj × List Obj))
      (insts : InstanceMap Obj) (result : CoreResult R) (news : List Obj) (left : InstanceMap Obj)
      (name : Text)
      → has_double (keys_of asked) ≡ false
      → Ready insts asked
      → f (objs_of asked) (without (keys_of asked) insts) ≡ (result, news, left)
      → is_key name (keys_of asked) ≡ false
      → ((singleton_handle (keys_of asked) f insts).0 ≡ result)
        × Back asked news (singleton_handle (keys_of asked) f insts).1
        × (Map.get name (singleton_handle (keys_of asked) f insts).1 ≡ Map.get name left)
  singleton_handle-Back f asked insts result news left name d ready e other =
      let whole =
        handle-Ready f asked insts d ready ∙ ap (λ w. (w.0, reinsert (held_of asked) w.1 w.2)) e in
      (
        ap (λ p. p.0) whole,
        subst (λ m. Back asked news m) (sym (ap (λ p. p.1) whole))
            (reinsert-Back asked news left d),
        ap (λ p. Map.get name p.1) whole ∙ get-reinsert_other name asked news left other,
      )
