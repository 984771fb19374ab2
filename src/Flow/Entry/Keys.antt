-- ===== src/Flow/Entry/Keys.antt =====
-- What `json_branch_key` of crates/flow/src/flow.rs and of crates/flow/src/triggers.rs finds.
use rind.Prelude.{◌≡◌, refl, ◌∙◌, sym, subst, Option-cases, inl, inr, some, List, [], ◌∷◌}
use rind.Map
use rind.Text.{Text, text_eq}
use rind.Json.{Json, null, boolean, number, string, array, object, Entries, get, as_object, to_map}
use rind.Payload.{JsonCodec}
use rind.Triggers as Triggers
use rind.Flow.Entry.{json_branch_key}
use rind.Flow.Entry.Merged.{get-to_map}
use mathlib.Core.Option

module _ (codec : JsonCodec) where
  -- The printed fields of a value under the keys.
  abbrev pub Values : Json → List Text → List Text → Type 0
  Values v [] [] = Unit {0}
  Values v [] (t ∷ ts) = ⊥
  Values v (k ∷ ks) [] = ⊥
  Values v (k ∷ ks) (t ∷ ts) =
      ((w : Json) × (get k v ≡ some w) × (codec.to_string w ≡ t)) × Values v ks ts

  -- A value that is an object with these fields.
  abbrev pub HasKeys : Json → List Text → List Text → Type 0
  HasKeys v keys key = ((es : Entries) × (v ≡ object es)) × Values v keys key

  object_key-Values :
      (es : Entries) (keys key : List Text)
      → Triggers.json_branch_key codec.to_string (to_map es) keys ≡ some key
      → Values (object es) keys key
  unfolding Triggers.json_branch_key get
  object_key-Values es [] [] h = tt
  object_key-Values es [] (t ∷ ts) h = cc
  object_key-Values es (k ∷ ks) key h = elim (Option-cases (Map.get k (to_map es))) [
    | inl e ↦ absurd (let c = rw (e, Triggers.json_branch_key) at h in cc)
    | inr (w, e) ↦ elim (Option-cases (Triggers.json_branch_key codec.to_string (to_map es) ks)) [
      | inl f ↦ absurd (let c = rw (e, f, Triggers.json_branch_key) at h in cc)
      | inr (rest, f) ↦
          let c : some (codec.to_string w ∷ rest) ≡ some key =
            rw (e, f, Triggers.json_branch_key) at h in
          subst (Values (object es) (k ∷ ks)) (Option.some-injective _ key c)
            ((w, sym (get-to_map k es) ∙ e, refl), object_key-Values es ks rest f)
    ]
  ]

  Values-object_key :
      (es : Entries) (keys key : List Text)
      → Values (object es) keys key
      → Triggers.json_branch_key codec.to_string (to_map es) keys ≡ some key
  unfolding Triggers.json_branch_key get
  Values-object_key es [] [] h = refl
  Values-object_key es [] (t ∷ ts) h = elim h [ ]
  Values-object_key es (k ∷ ks) [] h = elim h [ ]
  Values-object_key es (k ∷ ks) (t ∷ ts) ((w, found, printed), rest) =
      rw (get-to_map k es ∙ found, Values-object_key es ks ts rest, Triggers.json_branch_key)
        (rw printed refl)

  pub json_branch_key-HasKeys :
      (v : Json) (keys key : List Text)
      → json_branch_key codec v keys ≡ some key
      → HasKeys v keys key
  unfolding json_branch_key as_object
  json_branch_key-HasKeys (object es) keys key h = ((es, refl), object_key-Values es keys key h)
  json_branch_key-HasKeys null keys key h = cc
  json_branch_key-HasKeys (boolean b) keys key h = cc
  json_branch_key-HasKeys (number n) keys key h = cc
  json_branch_key-HasKeys (string s) keys key h = cc
  json_branch_key-HasKeys (array vs) keys key h = cc

  pub HasKeys-json_branch_key :
      (v : Json) (keys key : List Text)
      → HasKeys v keys key
      → json_branch_key codec v keys ≡ some key
  unfolding json_branch_key as_object
  HasKeys-json_branch_key v keys key ((es, e), values) =
      rw e (Values-object_key es keys key (subst (λ v. Values v keys key) e values))
