-- ===== src/Registry/Instances/Once.antt =====
-- `instantiate_one` of crates/core/src/registry.rs makes one instance of a name.
use rind.Prelude.{
  ◌≡◌, refl, sym, ◌∙◌, ap, arith, none, some, List, [], ◌∷◌, if◌then◌else◌, ◌==◌, ==_iff,
}
use rind.Map
use rind.Map.{Map}
use rind.Text.{Text, codes, text_eq}
use rind.ScopedNames.{parse_scoped_name}
use rind.Error.{CoreResult, ok}
use rind.Registry.Instances.{
  Boxed, InstanceMap, first_instance, scoped, resolved_metadata_and_full_name, instance_name,
  declared_item, instantiate, instantiate_in, cast_one, instantiate_one, as_one,
}
use rind.Registry.{Item, MetadataRegistry, resolve_metadata_key, named_key}

module _ {ℓ} {M : Type ℓ} (r : MetadataRegistry M) (metadata name : Text) where
  -- A resolved key is resolved to itself.
  pub resolve_metadata_key_twice :
      resolve_metadata_key r (resolve_metadata_key r metadata name) name
      ≡ resolve_metadata_key r metadata name
  unfolding resolve_metadata_key named_key
  resolve_metadata_key_twice =
      let star : Text = codes "*" in
      ground (arith, ==_iff metadata star, ==_iff (parse_scoped_name name).scope star)

no_first {ℓ} : {A : Type ℓ} (xs : List A) → first_instance xs ≡ none → xs ≡ []
no_first [] h = refl
no_first (x ∷ xs) h = cc

module _ {ℓ} {M Obj T : Type ℓ} (boxed : Boxed Obj T) (r : MetadataRegistry M)
    (metadata name : Text) where
  -- the instances with one of the name
  abbrev with_one : T → InstanceMap Obj → InstanceMap Obj
  with_one t insts = Map.insert (instance_name boxed r metadata name) (boxed.upcast t ∷ []) insts

  get-with_one :
      (t : T) (insts : InstanceMap Obj)
      → Map.get_or (instance_name boxed r metadata name) [] (with_one t insts) ≡ boxed.upcast t ∷ []
  unfolding Map.get_or
  get-with_one t insts =
      let full = instance_name boxed r metadata name in
      ground (arith, Map.get-insert full full (boxed.upcast t ∷ []) insts, ==_iff full full)

  resolved_twice :
      resolved_metadata_and_full_name boxed r
        (resolved_metadata_and_full_name boxed r metadata name).0
        name
      ≡ resolved_metadata_and_full_name boxed r metadata name
  unfolding resolved_metadata_and_full_name
  resolved_twice = ap (λ k. (k, scoped k name)) (resolve_metadata_key_twice r metadata name)

  instantiated :
      (make : Item M → CoreResult T) (insts : InstanceMap Obj) (item : Item M) (t : T)
      → declared_item boxed r (resolved_metadata_and_full_name boxed r metadata name).0 name
        ≡ some item
      → make item ≡ ok t
      → first_instance (Map.get_or (instance_name boxed r metadata name) [] insts) ≡ none
      → instantiate_one boxed r metadata name make insts ≡ (ok t, with_one t insts)
  unfolding instantiate_one instantiate
  instantiated make insts item t declared made none_yet =
      let empty = no_first (Map.get_or (instance_name boxed r metadata name) [] insts) none_yet in
      rw (instantiate_one, empty)
        (ap (λ p. instantiate_in boxed r p name make insts) resolved_twice
          ∙ rw (instantiate_in, declared, made, empty) refl)

  -- Where a name without instances is declared and its making succeeds, instantiate_one gives the
  -- made instance, and this instance is then alone under the full name and all else as before.
  -- as_one finds it, and a further instantiate_one gives it again without making one.
  pub instantiate_one_once :
      (make again : Item M → CoreResult T) (insts : InstanceMap Obj) (item : Item M) (t : T)
      → declared_item boxed r (resolved_metadata_and_full_name boxed r metadata name).0 name
        ≡ some item
      → make item ≡ ok t
      → first_instance (Map.get_or (instance_name boxed r metadata name) [] insts) ≡ none
      → let made = instantiate_one boxed r metadata name make insts in
        (made.0 ≡ ok t)
        × (as_one boxed r metadata name made.1 ≡ ok t)
        × (instantiate_one boxed r metadata name again made.1 ≡ (ok t, made.1))
        × ((other : Text)
            → Map.get other made.1 ≡ (
                if instance_name boxed r metadata name == other
                then some (boxed.upcast t ∷ [])
                else Map.get other insts))
  unfolding as_one instantiate_one cast_one
  instantiate_one_once make again insts item t declared made none_yet =
      let e = instantiated make insts item t declared made none_yet in
      let at = get-with_one t insts in
      let cast = boxed.downcast-upcast t in
      (
        ap (λ p. p.0) e,
        ap (λ p. as_one boxed r metadata name p.1) e ∙ rw (as_one, at, cast) refl,
        ap (λ p. instantiate_one boxed r metadata name again p.1) e
            ∙ rw (instantiate_one, at, cast) refl
            ∙ ap (λ p. (ok t, p.1)) (sym e),
        λ other.
            ap (λ p. Map.get other p.1) e
            ∙ Map.get-insert (instance_name boxed r metadata name) other (boxed.upcast t ∷ [])
                insts,
      )
