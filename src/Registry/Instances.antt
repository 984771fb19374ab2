-- ===== src/Registry/Instances.antt =====
-- `InstanceRegistry` of crates/core/src/registry.rs: the instances by full name. An instance is a
-- `Box<dyn Any>`, whose type a caller names: the casts are an interface.
pub mod Handles
pub mod Once
use rind.Prelude.{
  ℕ, ◌≡◌, Bool, true, false, Option, none, some, List, [], ◌∷◌, ◌++◌, filter_map, if◌then◌else◌,
}
use rind.Map
use rind.Map.{Map}
use rind.Text.{Text, codes, text_eq}
use rind.Text.Split.{contains}
use rind.Error.{
  CoreError, CoreResult, ok, err, ◌>>=◌, ok_or, missing_instances, metadata_not_found,
  type_mismatch, unknown,
}
use rind.Registry.{Item, MetadataRegistry, resolve_metadata_key, find_item, lookup_in_any_group}
use mathlib.Core.Option

-- `Box::new` and `downcast` for one type of instances
pub record Boxed {ℓ} (Obj T : Type ℓ) : Type ℓ where
  pub upcast : T → Obj
  pub downcast : Obj → Option T
  pub downcast-upcast : (t : T) → downcast (upcast t) ≡ some t

abbrev pub InstanceMap {ℓ} : Type ℓ → Type ℓ
InstanceMap Obj = Map Text (List Obj)

-- `first`, and `last`
abbrev pub first_instance {ℓ} : {A : Type ℓ} → List A → Option A
first_instance [] = none
first_instance (x ∷ xs) = some x

abbrev pub last_instance {ℓ} : {A : Type ℓ} → List A → Option A
last_instance [] = none
last_instance (x ∷ []) = some x
last_instance (x ∷ y ∷ xs) = last_instance (y ∷ xs)

-- the arm `scp` of `rslvns!`
unfoldable pub scoped : Text → Text → Text
scoped p c = if contains (codes "@") c then c else c ++ b'@' ∷ p

module _ {ℓ} {M Obj T : Type ℓ} (boxed : Boxed Obj T) (r : MetadataRegistry M) where
  unfoldable pub resolved_metadata_and_full_name : Text → Text → Text × Text
  unfolding scoped
  resolved_metadata_and_full_name metadata name =
      (resolve_metadata_key r metadata name, scoped (resolve_metadata_key r metadata name) name)

  abbrev pub instance_name : Text → Text → Text
  instance_name metadata name = (resolved_metadata_and_full_name metadata name).1

  -- the declaration of a name that has a colon, or of one in any group
  unfoldable pub declared_item : Text → Text → Option (Item M)
  declared_item metadata name =
      if contains (codes ":") name
      then find_item r metadata name
      else lookup_in_any_group r metadata name

  -- the entry of the name is made before the instance, whose making may fail
  unfoldable pub instantiate_in :
      Text × Text
      → Text
      → (Item M → CoreResult T)
      → InstanceMap Obj
      → CoreResult T × InstanceMap Obj
  unfolding declared_item
  instantiate_in resolved name make insts = elim (declared_item resolved.0 name) [
    | none ↦ (err (metadata_not_found resolved.0), insts)
    | some item ↦
        let entry = Map.get_or resolved.1 [] insts in
        elim (make item) [
          | err e ↦ (err e, Map.insert resolved.1 entry insts)
          | ok t ↦ (ok t, Map.insert resolved.1 (entry ++ boxed.upcast t ∷ []) insts)
        ]
  ]

  unfoldable pub instantiate :
      Text → Text → (Item M → CoreResult T) → InstanceMap Obj → CoreResult T × InstanceMap Obj
  unfolding instantiate_in resolved_metadata_and_full_name
  instantiate metadata name make insts =
      instantiate_in (resolved_metadata_and_full_name metadata name) name make insts

  -- an instance of the type, where there is one at the place
  unfoldable pub cast_one : Text → Option Obj → CoreResult T
  cast_one name none = err (missing_instances name)
  cast_one name (some obj) = ok_or type_mismatch (boxed.downcast obj)

  unfoldable pub instantiate_one :
      Text → Text → (Item M → CoreResult T) → InstanceMap Obj → CoreResult T × InstanceMap Obj
  unfolding instantiate cast_one resolved_metadata_and_full_name
  instantiate_one metadata name make insts =
      let resolved = resolved_metadata_and_full_name metadata name in
      elim (first_instance (Map.get_or resolved.1 [] insts)) [
        | none ↦ instantiate resolved.0 name make insts
        | some obj ↦ (cast_one name (some obj), insts)
      ]

  -- the last instance of the name
  unfoldable pub as_one : Text → Text → InstanceMap Obj → CoreResult T
  unfolding cast_one resolved_metadata_and_full_name
  as_one metadata name insts =
      let full = (resolved_metadata_and_full_name metadata name).1 in
      cast_one full (last_instance (Map.get_or full [] insts))

  unfoldable pub instances : Text → Text → InstanceMap Obj → CoreResult (List T)
  unfolding resolved_metadata_and_full_name
  instances metadata name insts =
      let full = (resolved_metadata_and_full_name metadata name).1 in
      elim (Map.get full insts) [
        | none ↦ err (missing_instances full)
        | some objs ↦ ok (filter_map boxed.downcast objs)
      ]

  unfoldable pub uninstantiate :
      Text → Text → InstanceMap Obj → CoreResult (List T) × InstanceMap Obj
  unfolding instances resolved_metadata_and_full_name
  uninstantiate metadata name insts =
      let full = (resolved_metadata_and_full_name metadata name).1 in
      (instances metadata name insts, Map.remove full insts)

  -- the last of the instances of the type
  unfoldable pub uninstantiate_one : Text → Text → InstanceMap Obj → CoreResult T × InstanceMap Obj
  unfolding uninstantiate
  uninstantiate_one metadata name insts =
      let removed = uninstantiate metadata name insts in
      (removed.0 >>= (λ ts. ok_or unknown (last_instance ts)), removed.1)

module _ {ℓ} {Obj T : Type ℓ} (boxed : Boxed Obj T) where
  unfoldable pub singleton : Text → InstanceMap Obj → Option T
  singleton key insts =
      Option.bind (Map.get key insts) (λ objs. Option.bind (first_instance objs) boxed.downcast)

  -- the instance that is there or that is made, `none` for the panic on another type
  unfoldable pub singleton_or_insert_with : Text → T → InstanceMap Obj → Option T × InstanceMap Obj
  singleton_or_insert_with key made insts = elim (Map.get_or key [] insts) [
    | [] ↦ (some made, Map.insert key (boxed.upcast made ∷ []) insts)
    | obj ∷ objs ↦ (boxed.downcast obj, insts)
  ]
