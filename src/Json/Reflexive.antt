-- ===== src/Json/Reflexive.antt =====
-- Objects whose keys are distinct, and `json_subset` and `subset_match` of a value and itself.
use rind.Prelude.{
  ◌≡◌, refl, true, false, none, some, ◌==◌, ==_iff, ==_refl, arith, any, inl, inr, Bool-cases,
  nat_beq_iff,
}
use rind.Text.{Text, text_eq}
use rind.Json.{
  Json, null, boolean, number, string, array, object, Items, nil, cons, Entries, end, entry,
  get_entry, to_list, leaf_eq, json_subset, subset_entries, subset_items, subset_match,
}
use rind.Json.Mem.{Mem, here, there, any-Mem}
use rind.Json.Subset.{json_subset-subset_match}

-- No object of the value has two entries of one key.
abbrev mutual
  pub KeysDistinct : Json → Type 0
  KeysDistinct (array vs) = ItemsDistinct vs
  KeysDistinct (object es) = EntriesDistinct es
  KeysDistinct v = Unit {0}

  pub ItemsDistinct : Items → Type 0
  ItemsDistinct nil = Unit {0}
  ItemsDistinct (cons v vs) = KeysDistinct v × ItemsDistinct vs

  pub EntriesDistinct : Entries → Type 0
  EntriesDistinct end = Unit {0}
  EntriesDistinct (entry k v es) = (get_entry k es ≡ none) × KeysDistinct v × EntriesDistinct es

mutual
  unfolding json_subset leaf_eq to_list get_entry

  self : (v : Json) → KeysDistinct v → json_subset v v ≡ true
  self (object es) h = self_entries es es h (λ k v found. found)
  self (array vs) h = self_items vs vs h (λ v m. m)
  self null h = refl
  self (boolean true) h = refl
  self (boolean false) h = refl
  self (number n) h = (nat_beq_iff n n).1 refl
  self (string s) h = ==_refl s

  self_entries :
      (rs ts : Entries)
      → EntriesDistinct rs
      → ((k : Text) (v : Json) → get_entry k rs ≡ some v → get_entry k ts ≡ some v)
      → subset_entries rs ts ≡ true
  self_entries end ts h inside = refl
  self_entries (entry k r rs) ts h inside =
      let found : get_entry k ts ≡ some r = inside k r (ground (arith, ==_refl k)) in
      let rest : subset_entries rs ts ≡ true = self_entries rs ts h.2 (λ j v e.
        inside j v (elim (Bool-cases (k == j)) [
          | inl same ↦ absurd (grind (arith, (==_iff k j).0 same, h.0, e))
          | inr other ↦ ground arith
        ])) in
      ground (arith, self r h.1)

  self_items :
      (rs ts : Items)
      → ItemsDistinct rs
      → ((v : Json) → Mem v (to_list rs) → Mem v (to_list ts))
      → subset_items rs ts ≡ true
  self_items nil ts h inside = refl
  self_items (cons r rs) ts h inside =
      let found : any (λ (p : Json). json_subset r p) (to_list ts) ≡ true =
        any-Mem (λ (p : Json). json_subset r p) r (inside r here) (self r h.0) in
      let rest : subset_items rs ts ≡ true = self_items rs ts h.1 (λ v m. inside v (there m)) in
      ground arith

-- Each value whose objects have no key twice is a subset of itself.
json_subset_self : (v : Json) → KeysDistinct v → json_subset v v ≡ true
json_subset_self v h = self v h

pub subset_match_self : (v : Json) → KeysDistinct v → subset_match v v ≡ true
subset_match_self v h = json_subset-subset_match v v (self v h)
