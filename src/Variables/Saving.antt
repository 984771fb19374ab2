-- ===== src/Variables/Saving.antt =====
-- What a variable of crates/primitives/src/variables.rs reads as, and that it survives a save.
use rind.Prelude.{◌≡◌, refl, ◌∙◌, inr, Option, none, some, [], ◌∷◌, arith, if◌then◌else◌, ◌==◌}
use rind.Map
use rind.Map.{Map}
use rind.Text.{Text, text_eq}
use rind.Error.{ok}
use rind.Variables.{
  Toml, VariableHeap, Environment, fallback, get, set, insert_all, load, save, IsSound,
}

module _ (toml : Toml) where
  abbrev or_else : Option toml.Value → Option toml.Value → Option toml.Value
  or_else none b = b
  or_else (some v) b = some v

  get-insert_all :
      (key : Text) (entries m : Map Text toml.Value)
      → Map.get key (insert_all toml entries m) ≡ or_else (Map.get key entries) (Map.get key m)
  unfolding insert_all Map.get
  get-insert_all key [] m = refl
  get-insert_all key ((k, v) ∷ entries) m =
      ground
        (arith, Map.get-insert k key v (insert_all toml entries m), get-insert_all key entries m)

  -- After set, the variable reads as the value set, and every other variable as before.
  get-set :
      (env : Environment toml) (h : VariableHeap toml) (id other : Text) (value : toml.Value)
      → get toml env (set toml id value h) other
        ≡ (if id == other then some value else get toml env h other)
  unfolding get set fallback
  get-set env h id other value = ground (arith, Map.get-insert id other value h.values)

  or_else-none : (a : Option toml.Value) → or_else a none ≡ a
  or_else-none none = refl
  or_else-none (some v) = refl

  insert_all-nil :
      (key : Text) (entries : Map Text toml.Value)
      → Map.get key (insert_all toml entries []) ≡ Map.get key entries
  unfolding Map.get
  insert_all-nil key entries = get-insert_all key entries [] ∙ or_else-none (Map.get key entries)

  -- Where a printed table parses to one with the same entries and a save succeeds, loading its
  -- content into the heap without its values gives every variable the value it had.
  pub load-save :
      (env : Environment toml) (h : VariableHeap toml) {content : Text}
      → IsSound toml
      → save toml h ≡ ok content
      → (h' : VariableHeap toml) × (load toml (some (inr content)) (record h { values = [] })
          ≡ ok h')
        × ((id : Text) → get toml env h' id ≡ get toml env h id)
  unfolding save load get fallback
  load-save env h {content} sound e =
      let printed : toml.to_string_pretty (insert_all toml h.values []) ≡ inr content =
        ground arith in
      let (parsed, parses, same) = sound.parses (insert_all toml h.values []) content printed in
      (
        record h { values = insert_all toml parsed [] },
        rw (parses, load) refl,
        λ id.
            let found : Map.get id (insert_all toml parsed []) ≡ Map.get id h.values =
              insert_all-nil id parsed ∙ same id ∙ insert_all-nil id h.values in
            rw (found, get) refl,
      )
