-- ===== src/Examples/Settings.antt =====
-- The theorems about crates/primitives/src/variables.rs with a format for at most one variable, `v`.
use rind.Prelude.{
  ◌≡◌, ◌⊎◌, inl, inr, refl, Option, some, [], ◌∷◌, arith, if◌then◌else◌, ◌==◌, ==_iff,
}
use rind.Map
use rind.Map.{Map}
use rind.Text.{Text, codes, text_eq}
use rind.Error.{ok}
use rind.Variables.{Toml, VariableHeap, save, insert_all, IsSound}

abbrev print : Map Text Text → Text ⊎ Text
print [] = inr []
print ((key, value) ∷ []) = if key == codes "v" then inr (b'=' ∷ value) else inl (codes "too large")
print (a ∷ b ∷ table) = inl (codes "too large")

abbrev parse : Text → Text ⊎ Option (Map Text Text)
parse [] = inr (some [])
parse (c ∷ value) = inr (some ((codes "v", value) ∷ []))

abbrev tiny : Toml
tiny = record {
  Value = Text;
  boolean = λ b. codes "false";
  string = λ t. t;
  to_string_pretty = print;
  from_str = parse;
}

parse-print :
    (table : Map Text Text) (content : Text)
    → print table ≡ inr content
    → (parsed : Map Text Text) × (parse content ≡ inr (some parsed))
      × ((key : Text) → Map.get key parsed ≡ Map.get key table)
parse-print [] [] e = ([], refl, λ key. refl)
parse-print [] (c ∷ value) e = absurd (ground arith)
parse-print ((key, value) ∷ []) [] e = absurd (ground arith)
parse-print ((key, value) ∷ []) (c ∷ content) e =
    ((codes "v", content) ∷ [], refl, λ k. ground (arith, ==_iff key (codes "v")))
parse-print (a ∷ b ∷ table) content e = absurd (ground arith)

tiny-IsSound : IsSound tiny
tiny-IsSound = record { parses = parse-print }

abbrev heap : VariableHeap tiny
heap = record {
  values = (codes "v", codes "on") ∷ [];
  defaults = (codes "v", codes "off") ∷ (codes "w", codes "off") ∷ [];
  env_mappings = [];
  path = codes "variables.toml";
}

heap_saved : save tiny heap ≡ ok (codes "=on")
unfolding save Map.insert insert_all
heap_saved = refl
