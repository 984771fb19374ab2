-- ===== src/Flow/Entry/Merged.antt =====
-- The merging of JSON objects by `merge_json` of crates/flow/src/triggers.rs, field by field.
use rind.Prelude.{
  ◌≡◌, refl, ◌∙◌, ap, sym, arith, Bool-cases, inl, inr, false, Option, none, some, [], ◌∷◌,
  if◌then◌else◌, ◌==◌, ==_iff,
}
use rind.Map
use rind.Map.{Map}
use rind.Text.{Text, codes, text_eq}
use rind.Text.Split.{strip_prefix}
use rind.Json.{Json, object, Entries, end, entry, get, get_entry, to_map, of_map}
use rind.Payload.Fields.{get_entry-insert_entry}
use rind.Triggers as Triggers
use rind.Triggers.{merge_entries}
use rind.Flow.Entry.{merge_json}

-- No key stands twice, is empty or starts with an ampersand.
abbrev pub PlainKeys : Entries → Type 0
PlainKeys end = Unit {0}
PlainKeys (entry k v rest) =
    (get_entry k rest ≡ none)
    × (([] == k) ≡ false)
    × (strip_prefix (codes "&") k ≡ none)
    × PlainKeys rest

-- The fields of a value that is an object are plain.
abbrev pub PlainFields : Json → Type 0
PlainFields (object es) = PlainKeys es
PlainFields v = Unit {0}

-- the first where it is there, and else the second
abbrev pub either : Option Json → Option Json → Option Json
either none o = o
either (some v) o = some v

get_entry-of_map : (k : Text) (m : Map Text Json) → get_entry k (of_map m) ≡ Map.get k m
unfolding of_map get_entry Map.get
get_entry-of_map k [] = refl
get_entry-of_map k ((j, v) ∷ m) =
    ground (arith, get_entry-insert_entry j k v (of_map m), get_entry-of_map k m)

pub get-to_map : (k : Text) (es : Entries) → Map.get k (to_map es) ≡ get_entry k es
unfolding to_map get_entry Map.get
get-to_map k end = refl
get-to_map k (entry j v rest) = ground (arith, get-to_map k rest)

first_of :
    (k j : Text) (v : Json) (o : Option Json) (next : Option Json)
    → ((j ≡ k) → next ≡ none)
    → either next (if j == k then some v else o) ≡ either (if j == k then some v else next) o
first_of k j v o next h = elim (Bool-cases (j == k)) [
  | inl e ↦ rw (e, h ((==_iff j k).0 e)) refl
  | inr e ↦ rw e refl
]

merge_entries-get :
    (k : Text) (old : Map Text Json) (es : Entries)
    → PlainKeys es
    → Map.get k (merge_entries [] old (to_map es)) ≡ either (get_entry k es) (Map.get k old)
unfolding merge_entries to_map get_entry
merge_entries-get k old end h = refl
merge_entries-get k old (entry j v rest) (once, full, plain, h) =
    rw (full, plain, merge_entries)
      (merge_entries-get k (Map.insert j v old) rest h
        ∙ ap (either (get_entry k rest)) (Map.get-insert j k v old)
        ∙ first_of k j v (Map.get k old) (get_entry k rest)
            (λ e. ap (λ t. get_entry t rest) (sym e) ∙ once))

-- Each field of the merge of two objects is that of the new one where it has the field, and else
-- that of the old one.
pub merge_json-get :
    (k : Text) (old new : Entries)
    → PlainKeys new
    → get k (merge_json (object old) (object new)) ≡ either (get_entry k new) (get_entry k old)
unfolding merge_json Triggers.merge_json get
merge_json-get k old new h =
    get_entry-of_map k (merge_entries [] (to_map old) (to_map new))
    ∙ merge_entries-get k (to_map old) new h
    ∙ ap (either (get_entry k new)) (get-to_map k old)
