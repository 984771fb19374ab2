-- ===== src/Variables.antt =====
-- crates/primitives/src/variables.rs: `VariableHeap`. The crate toml is a parameter, the
-- environment and what the file system answers are arguments. A `HashMap` is iterated in the order
-- of its list, which a caller of the source cannot rely on.
pub mod Saving
use rind.Prelude.{
  ℕ, ◌≡◌, refl, ◌⊎◌, inl, inr, Bool, true, false, Option, none, some, List, [], ◌∷◌, ◌++◌, map,
  arith, if◌then◌else◌,
}
use rind.Map
use rind.Map.{Map}
use rind.Text.{Text, codes, text_eq}
use rind.Error.{CoreError, CoreResult, ok, err, persistence_error}

-- The values of the crate, its printer and its parser, which tells a table from another value; an
-- error is its text.
pub record Toml : Type 1 where
  pub Value : Type 0
  pub boolean : Bool → Value
  pub string : Text → Value
  pub to_string_pretty : Map Text Value → Text ⊎ Text
  pub from_str : Text → Text ⊎ Option (Map Text Value)

module _ (toml : Toml) where
  pub record VariableHeap : Type 0 where
    pub values : Map Text toml.Value
    pub defaults : Map Text toml.Value
    pub env_mappings : Map Text Text
    pub path : Text

  unfoldable pub new : Text → VariableHeap
  new path = record { values = []; defaults = []; env_mappings = []; path = path }

  -- `std::env::var`
  abbrev pub Environment : Type 0
  Environment = Text → Option Text

  -- the mapped variable of the environment, then the default
  unfoldable pub fallback : Environment → VariableHeap → Text → Option toml.Value
  fallback env h id = elim (Map.get id h.env_mappings) [
    | none ↦ Map.get id h.defaults
    | some name ↦ elim (env name) [
      | none ↦ Map.get id h.defaults
      | some text ↦ some (toml.string text)
    ]
  ]

  unfoldable pub get : Environment → VariableHeap → Text → Option toml.Value
  get env h id = elim (Map.get id h.values) [ none ↦ fallback env h id | some v ↦ some v ]

  unfoldable pub contains : VariableHeap → Text → Bool
  contains h id = Map.contains_key id h.defaults

  unfoldable pub set : Text → toml.Value → VariableHeap → VariableHeap
  set id value h = record h { values = Map.insert id value h.values }

  unfoldable pub map_env : Text → Option Text → Map Text Text → Map Text Text
  map_env id none m = m
  map_env id (some name) m = Map.insert id name m

  abbrev pub or_false : Option toml.Value → toml.Value
  or_false none = toml.boolean false
  or_false (some v) = v

  unfoldable pub register : Text → Option toml.Value → Option Text → VariableHeap → VariableHeap
  register id default env_name h = record h {
    defaults = Map.insert id (or_false default) h.defaults;
    env_mappings = map_env id env_name h.env_mappings;
  }

  abbrev pub get_or_default : Option toml.Value → toml.Value → toml.Value
  get_or_default none def = def
  get_or_default (some v) def = v

  unfoldable pub get_full : Environment → VariableHeap → Text → Option (toml.Value × toml.Value)
  get_full env h name = elim (Map.get name h.defaults) [
    | none ↦ none
    | some def ↦ some (def, get_or_default (get env h name) def)
  ]

  -- `all`: names, defaults and values
  unfoldable pub all : Environment → VariableHeap → List (Text × toml.Value × toml.Value)
  all env h = map (λ e. (e.0, e.1, get_or_default (get env h e.0) e.1)) h.defaults

  -- one `insert` for each entry
  unfoldable pub insert_all : Map Text toml.Value → Map Text toml.Value → Map Text toml.Value
  insert_all [] m = m
  insert_all ((key, value) ∷ entries) m = Map.insert key value (insert_all entries m)

  -- `load` of what the file holds, `none` if there is no file, `inl` if it cannot be read
  unfoldable pub load : Option (Text ⊎ Text) → VariableHeap → CoreResult VariableHeap
  load none h = ok h
  load (some (inl e)) h =
      err (persistence_error (codes "failed to read variables file " ++ h.path ++ codes ": " ++ e))
  load (some (inr content)) h = elim (toml.from_str content) [
    | inl e ↦
        err
          (persistence_error (codes "failed to parse variables file " ++ h.path ++ codes ": " ++ e))
    | inr table ↦ elim table [
      | none ↦ ok h
      | some entries ↦ ok (record h { values = insert_all entries h.values })
    ]
  ]

  -- The content that `save` writes to the temporary file and renames.
  unfoldable pub save : VariableHeap → CoreResult Text
  save h = elim (toml.to_string_pretty (insert_all h.values [])) [
    | inl e ↦ err (persistence_error (codes "failed to serialize variables: " ++ e))
    | inr content ↦ ok content
  ]

-- What is printed is parsed as a table with the same entries.
pub record IsSound (toml : Toml) : Type 0 where
  pub parses :
      (table : Map Text toml.Value) (content : Text)
      → toml.to_string_pretty table ≡ inr content
      → (parsed : Map Text toml.Value) × (toml.from_str content ≡ inr (some parsed))
        × ((key : Text) → Map.get key parsed ≡ Map.get key table)
