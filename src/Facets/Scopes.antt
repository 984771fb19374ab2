-- ===== src/Facets/Scopes.antt =====
-- Which facets the scope's drop in crates/flow/src/flow.rs takes: the tests of the names' suffixes
-- against their last at sign.
use rind.Prelude.{
  ◌&&◌, ap, sym, ◌∙◌, ℕ, ◌≡◌, refl, Bool, true, false, Option, none, some, [], ◌∷◌, ◌++◌,
  if◌then◌else◌, ◌==◌, ◌||◌, not, ==_iff, arith, Option-cases, Bool-cases, inl, inr, nat_beq_iff,
}
use rind.Map
use rind.Map.{Map}
use rind.Text.{Text, codes, text_eq}
use rind.Text.Split.{contains, starts_with, ends_with, rsplit_once}
use mathlib.Core.List.{reverse, reverse-cons, reverse-reverse}
use rind.Facets.{Facets, scope_from_state_name, retained}

starts_with-snoc :
    (p s : Text) (c : ℕ) → starts_with p (s ++ c ∷ []) ≡ (starts_with p s || p == (s ++ c ∷ []))
unfolding starts_with
starts_with-snoc [] [] c = refl
starts_with-snoc [] (d ∷ s) c = refl
starts_with-snoc (x ∷ []) [] c = ground arith
starts_with-snoc (x ∷ y ∷ p) [] c = ground arith
starts_with-snoc (x ∷ p) (d ∷ s) c = ground (arith, starts_with-snoc p s c)

snoc-starts_with : (p : Text) (c : ℕ) → starts_with (p ++ c ∷ []) [] ≡ false
unfolding starts_with
snoc-starts_with [] c = refl
snoc-starts_with (d ∷ p) c = refl

reverse_eq : (p s : Text) → (reverse p == reverse s) ≡ (p == s)
reverse_eq p s =
    let back : reverse p ≡ reverse s → p ≡ s =
      λ e. sym (reverse-reverse p) ∙ ap reverse e ∙ reverse-reverse s in
    let one = ==_iff (reverse p) (reverse s) in
    let two = ==_iff p s in
    elim (Bool-cases (p == s)) [
      | inl same ↦ sym (rw (same) (sym (one.1 (ap reverse (two.0 same)))))
      | inr other ↦ elim (Bool-cases (reverse p == reverse s)) [
        | inl same ↦ absurd (ground (arith, two.1 (back (one.0 same)), other))
        | inr apart ↦ apart ∙ sym other
      ]
    ]

ends_with-cons : (p s : Text) (c : ℕ) → ends_with p (c ∷ s) ≡ (ends_with p s || p == (c ∷ s))
unfolding ends_with
ends_with-cons p s c =
    let snoc = reverse-cons c s in
    let test = starts_with-snoc (reverse p) (reverse s) c in
    let same = reverse_eq p (c ∷ s) in
    ap (starts_with (reverse p)) snoc
    ∙ test
    ∙ ap (λ (b : Bool). starts_with (reverse p) (reverse s) || b)
        (ap (λ (t : Text). reverse p == t) (sym snoc) ∙ same)

ends_with-nil : (p : Text) (c : ℕ) → ends_with (c ∷ p) [] ≡ false
unfolding ends_with
ends_with-nil p c =
    ap (λ (t : Text). starts_with t []) (reverse-cons c p) ∙ snoc-starts_with (reverse p) c

-- the part behind the last separator is the text
abbrev is_last : Text → Option (Text × Text) → Bool
is_last scope none = false
is_last scope (some p) = scope == p.1

ends_with-rsplit_once :
    (c : ℕ) (scope name : Text)
    → rsplit_once c scope ≡ none
    → ends_with (c ∷ scope) name ≡ is_last scope (rsplit_once c name)
unfolding rsplit_once
ends_with-rsplit_once c scope [] h = ends_with-nil scope c
ends_with-rsplit_once c scope (d ∷ name) h =
    let ih = ends_with-rsplit_once c scope name h in
    let step = ends_with-cons (c ∷ scope) name d in
    elim (Option-cases (rsplit_once c name)) [
      | inl none_left ↦ ground (arith, ih, step, none_left, nat_beq_iff d c)
      | inr (p, found) ↦ elim (Bool-cases (scope == name)) [
        | inl same ↦ absurd (ground (arith, (==_iff scope name).0 same, h, found))
        | inr other ↦ ground (arith, ih, step, found, other)
      ]
    ]

-- `contains('@')` of a name
contains-rsplit_once :
    (c : ℕ) (name : Text)
    → contains (c ∷ []) name ≡ (elim (rsplit_once c name) [ none ↦ false | some p ↦ true ])
unfolding contains starts_with rsplit_once
contains-rsplit_once c [] = refl
contains-rsplit_once c (d ∷ name) = ground (arith, contains-rsplit_once c name, nat_beq_iff d c)

-- `retain` by a test of the keys
retain_keys :
    (p : Text → Bool) (k : Text) (m : Facets)
    → Map.get k (Map.retain (λ j v. p j) m) ≡ (if p k then Map.get k m else none)
unfolding Map.get Map.retain
retain_keys p k [] = ground arith
retain_keys p k ((j, w) ∷ m) = ground (arith, ==_iff j k, retain_keys p k m)

-- For a scope without an at sign, drop_scope takes exactly the facets whose name has an at sign
-- and the scope behind the last one, and leaves the others as they were.
pub retained-get :
    (scope name : Text) (facets : Facets)
    → rsplit_once b'@' scope ≡ none
    → Map.get name (retained scope facets) ≡ (
        if contains (codes "@") name && scope == scope_from_state_name name
        then none
        else Map.get name facets)
unfolding retained scope_from_state_name
retained-get scope name facets h = ground (
  arith,
  retain_keys
      (λ k.
        (scope == codes "static" && not (contains (codes "@") k))
        || not (ends_with (b'@' ∷ scope) k))
      name facets,
  ends_with-rsplit_once b'@' scope name h,
  contains-rsplit_once b'@' name,
)
