-- ===== src/Json/Subset.antt =====
-- `json_subset` of crates/flow/src/triggers.rs as an order, and `subset_match` above it.
use rind.Prelude.{
  subst, sym, ap, ◌==◌, ◌≡◌, refl, true, false, some, any, arith, Bool-cases, Option-cases, inl,
  inr, ==_iff, nat_beq_iff,
}
use rind.Text.{Text, text_eq}
use rind.Json.{
  subset_items, Json, null, boolean, number, string, array, object, Items, nil, cons, Entries, end,
  entry, get_entry, to_list, leaf_eq, json_subset, subset_entries, subset_match, match_entries,
  match_items, match_arm, descend,
}
use rind.Json.Mem.{Mem, here, there, any-Mem, any_member}

leaf_eq-match_arm : (r t : Json) → leaf_eq r t ≡ true → subset_match r t ≡ true
unfolding subset_match leaf_eq match_arm descend
leaf_eq-match_arm null t h = ground arith
leaf_eq-match_arm (boolean b) t h = ground arith
leaf_eq-match_arm (number n) t h = ground arith
leaf_eq-match_arm (string x) t h = ground arith
leaf_eq-match_arm (array xs) t h = ground arith
leaf_eq-match_arm (object es) t h = ground arith

module _ (k : Text) (r : Json) (rs ts : Entries) where
  subset_entries-entry :
      subset_entries (entry k r rs) ts ≡ true
      → (t : Json) × (get_entry k ts ≡ some t)
        × (json_subset r t ≡ true)
        × (subset_entries rs ts ≡ true)
  unfolding subset_entries
  subset_entries-entry h = elim (Option-cases (get_entry k ts)) [
    | inl missing ↦ absurd (ground arith)
    | inr (t, found) ↦ (t, found, ground arith, ground arith)
  ]

  match_entries-entry :
      (t : Json)
      → get_entry k ts ≡ some t
      → subset_match r t ≡ true
      → match_entries rs ts ≡ true
      → match_entries (entry k r rs) ts ≡ true
  unfolding match_entries subset_match
  match_entries-entry t found f rest = ground arith

subset_items-cons :
    (r : Json) (rs ts : Items)
    → subset_items (cons r rs) ts ≡ true
    → (t : Json) × Mem t (to_list ts) × (json_subset r t ≡ true) × (subset_items rs ts ≡ true)
unfolding subset_items
subset_items-cons r rs ts h = elim (Bool-cases (any (λ (t : Json). json_subset r t) (to_list ts))) [
  | inl some_of ↦
      let (t, m, found) = any_member (λ (t : Json). json_subset r t) (to_list ts) some_of in
      (t, m, found, ground arith)
  | inr nowhere ↦ absurd (ground arith)
]

mutual
  unfolding json_subset subset_match match_arm descend leaf_eq

  subset : (r t : Json) → json_subset r t ≡ true → subset_match r t ≡ true
  subset (object rs) (object ts) h = subset_of_entries rs ts h
  subset (array rs) (array ts) h = subset_of_items rs ts h
  subset r t h = leaf_eq-match_arm r t h

  subset_of_entries : (rs ts : Entries) → subset_entries rs ts ≡ true → match_entries rs ts ≡ true
  subset_of_entries end ts h = refl
  subset_of_entries (entry k r rs) ts h =
      let (t, found, first, rest) = subset_entries-entry k r rs ts h in
      match_entries-entry k r rs ts t found (subset r t first) (subset_of_entries rs ts rest)

  subset_of_items : (rs ts : Items) → subset_items rs ts ≡ true → match_items rs ts ≡ true
  subset_of_items nil ts h = refl
  subset_of_items (cons r rs) ts h =
      let (t, m, first, rest) = subset_items-cons r rs ts h in
      ground (
        arith,
        any-Mem (λ (p : Json). subset_match r p) t m (subset r t first),
        subset_of_items rs ts,
      )

-- Whatever json_subset accepts, subset_match accepts as well.
pub json_subset-subset_match :
    (reference thing : Json)
    → json_subset reference thing ≡ true
    → subset_match reference thing ≡ true
unfolding subset_match
json_subset-subset_match reference thing h = subset reference thing h

get_entry-subset :
    (k : Text) (t : Json) (ts us : Entries)
    → get_entry k ts ≡ some t
    → subset_entries ts us ≡ true
    → (u : Json) × (get_entry k us ≡ some u) × (json_subset t u ≡ true)
unfolding get_entry
get_entry-subset k t end us found h = cc
get_entry-subset k t (entry j v ts) us found h =
    let (u, at, first, rest) = subset_entries-entry j v ts us h in
    elim (Bool-cases (j == k)) [
      | inl same ↦
          let v_t : v ≡ t = ground arith in
          let j_k : j ≡ k = (==_iff j k).0 same in
          (
            u,
            subst (λ (x : Text). get_entry x us ≡ some u) j_k at,
            subst (λ (x : Json). json_subset x u ≡ true) v_t first,
          )
      | inr other ↦ get_entry-subset k t ts us (ground arith) rest
    ]

Mem-subset :
    {t : Json} (ts us : Items)
    → Mem t (to_list ts)
    → subset_items ts us ≡ true
    → (u : Json) × Mem u (to_list us) × (json_subset t u ≡ true)
unfolding to_list
Mem-subset nil us m h = elim m [ ]
Mem-subset (cons v ts) us here h =
    let (u, n, found, rest) = subset_items-cons v ts us h in (u, n, found)
Mem-subset (cons v ts) us (there m) h =
    let (u, n, found, rest) = subset_items-cons v ts us h in Mem-subset ts us m rest

leaf_eq-eq : (r t : Json) → leaf_eq r t ≡ true → r ≡ t
unfolding leaf_eq
leaf_eq-eq null t h = ground arith
leaf_eq-eq (boolean true) t h = ground arith
leaf_eq-eq (boolean false) t h = ground arith
leaf_eq-eq (number n) (number m) h = ap number ((nat_beq_iff n m).0 h)
leaf_eq-eq (number n) t h = ground arith
leaf_eq-eq (string x) (string y) h = ap string ((==_iff x y).0 h)
leaf_eq-eq (string x) t h = ground arith
leaf_eq-eq (array xs) t h = ground arith
leaf_eq-eq (object es) t h = ground arith

mutual
  unfolding json_subset subset_entries subset_items leaf_eq

  trans : (r t u : Json) → json_subset r t ≡ true → json_subset t u ≡ true → json_subset r u ≡ true
  trans (object rs) (object ts) (object us) h g = trans_entries rs ts us h g
  trans (array rs) (array ts) (array us) h g = trans_items rs ts us h g
  trans (object rs) (object ts) u h g = absurd (ground arith)
  trans (array rs) (array ts) u h g = absurd (ground arith)
  trans r t u h g = subst (λ (x : Json). json_subset x u ≡ true) (sym (leaf_eq-eq r t h)) g

  trans_entries :
      (rs ts us : Entries)
      → subset_entries rs ts ≡ true
      → subset_entries ts us ≡ true
      → subset_entries rs us ≡ true
  trans_entries end ts us h g = refl
  trans_entries (entry k r rs) ts us h g =
      let (t, found, first, rest) = subset_entries-entry k r rs ts h in
      let (u, at, second) = get_entry-subset k t ts us found g in
      ground (arith, trans r t u first second, trans_entries rs ts us rest g)

  trans_items :
      (rs ts us : Items)
      → subset_items rs ts ≡ true
      → subset_items ts us ≡ true
      → subset_items rs us ≡ true
  trans_items nil ts us h g = refl
  trans_items (cons r rs) ts us h g =
      let (t, m, first, rest) = subset_items-cons r rs ts h in
      let (u, n, second) = Mem-subset ts us m g in
      ground (
        arith,
        any-Mem (λ (p : Json). json_subset r p) u n (trans r t u first second),
        trans_items rs ts us rest g,
      )

-- json_subset is transitive.
pub json_subset-transitive :
    (r t u : Json) → json_subset r t ≡ true → json_subset t u ≡ true → json_subset r u ≡ true
json_subset-transitive r t u h g = trans r t u h g
