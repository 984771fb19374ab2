-- ===== src/Json.antt =====
-- The values of serde_json, with the constructors that crates/flow/src/triggers.rs and
-- crates/ipc/src/ipc.rs match on. A number is a code of its own; the entries of an object stand in
-- the order in which they are iterated.
use rind.Prelude.{
  ℕ, Bool, true, false, Option, none, some, List, [], ◌∷◌, if◌then◌else◌, nat_beq, ltb, ◌==◌, any,
}
pub mod Mem
pub mod Subset
pub mod Reflexive
use rind.Map.{Map}
use rind.Text.{Text, text_eq}

mutual
  pub data Json : Type 0 where
    null : Json
    boolean : Bool → Json
    number : ℕ → Json
    string : Text → Json
    array : Items → Json
    object : Entries → Json

  pub data Items : Type 0 where
    nil : Items
    cons : Json → Items → Items

  pub data Entries : Type 0 where
    end : Entries
    entry : Text → Json → Entries → Entries

-- `get` of an object's map
unfoldable pub get_entry : Text → Entries → Option Json
get_entry k end = none
get_entry k (entry j v rest) = let next = get_entry k rest in if j == k then some v else next

-- the values of an array
unfoldable pub to_list : Items → List Json
to_list nil = []
to_list (cons v rest) = v ∷ to_list rest

abbrev pub text_ltb : Text → Text → Bool
text_ltb s [] = false
text_ltb [] (d ∷ t) = true
text_ltb (c ∷ s) (d ∷ t) =
    let rest = text_ltb s t in if ltb c d then true else if nat_beq c d then rest else false

-- `insert` of an object's map, which is in the order of its keys
unfoldable pub insert_entry : Text → Json → Entries → Entries
insert_entry k v end = entry k v end
insert_entry k v (entry j w rest) =
    let next = insert_entry k v rest in
    if j == k
    then entry k v rest
    else if text_ltb k j
    then entry k v (entry j w rest)
    else entry j w next

-- an object's map, and the object of a map
unfoldable pub to_map : Entries → Map Text Json
to_map end = []
to_map (entry k v rest) = (k, v) ∷ to_map rest

unfoldable pub of_map : Map Text Json → Entries
unfolding insert_entry
of_map [] = end
of_map ((k, v) ∷ rest) = insert_entry k v (of_map rest)

unfoldable pub as_object : Json → Option (Map Text Json)
unfolding to_map
as_object (object es) = some (to_map es)
as_object v = none

-- `Value::get(key)`
unfoldable pub get : Text → Json → Option Json
unfolding get_entry
get k (object es) = get_entry k es
get k v = none

-- `==` of values that are not both arrays or both objects
unfoldable pub leaf_eq : Json → Json → Bool
leaf_eq null null = true
leaf_eq (boolean true) (boolean b) = b
leaf_eq (boolean false) (boolean true) = false
leaf_eq (boolean false) (boolean false) = true
leaf_eq (number m) (number n) = nat_beq m n
leaf_eq (string s) (string t) = s == t
leaf_eq _ _ = false

-- The arms of `subset_match` that look for the same filter inside of the payload: `arm` is what the
-- other arms answer, and none where one of these is taken.
unfoldable mutual
  pub descend : (Json → Option Bool) → Json → Bool
  descend arm (object ps) = elim (arm (object ps)) [ none ↦ any_value arm ps | some b ↦ b ]
  descend arm (array ps) = elim (arm (array ps)) [ none ↦ any_item arm ps | some b ↦ b ]
  descend arm p = elim (arm p) [ none ↦ false | some b ↦ b ]

  pub any_item : (Json → Option Bool) → Items → Bool
  any_item arm nil = false
  any_item arm (cons p ps) = let rest = any_item arm ps in if descend arm p then true else rest

  pub any_value : (Json → Option Bool) → Entries → Bool
  any_value arm end = false
  any_value arm (entry k p ps) = let rest = any_value arm ps in if descend arm p then true else rest

-- The other arms of `subset_match`, by the filter.
unfoldable mutual
  pub match_arm : Json → Json → Option Bool
  match_arm (object fs) (object ps) = some (match_entries fs ps)
  match_arm (array fs) (array ps) = some (match_items fs ps)
  match_arm f (object ps) = none
  match_arm f (array ps) = none
  match_arm f p = some (leaf_eq f p)

  pub match_entries : Entries → Entries → Bool
  match_entries end ps = true
  match_entries (entry k f fs) ps =
      let rest = match_entries fs ps in
      elim (get_entry k ps) [
        | none ↦ false
        | some p ↦ if descend (λ (q : Json). match_arm f q) p then rest else false
      ]

  pub match_items : Items → Items → Bool
  match_items nil ps = true
  match_items (cons f fs) ps =
      let rest = match_items fs ps in
      if any (λ (p : Json). descend (λ (q : Json). match_arm f q) p) (to_list ps)
      then rest
      else false

unfoldable pub subset_match : Json → Json → Bool
unfolding descend match_arm
subset_match filter payload = descend (λ (p : Json). match_arm filter p) payload

-- `json_subset`
unfoldable mutual
  pub json_subset : Json → Json → Bool
  json_subset (object rs) (object ts) = subset_entries rs ts
  json_subset (array rs) (array ts) = subset_items rs ts
  json_subset r t = leaf_eq r t

  pub subset_entries : Entries → Entries → Bool
  subset_entries end ts = true
  subset_entries (entry k r rs) ts =
      let rest = subset_entries rs ts in
      elim (get_entry k ts) [ none ↦ false | some t ↦ if json_subset r t then rest else false ]

  pub subset_items : Items → Items → Bool
  subset_items nil ts = true
  subset_items (cons r rs) ts =
      let rest = subset_items rs ts in
      if any (λ (t : Json). json_subset r t) (to_list ts) then rest else false
