-- ===== src/Dispatch/Specs.antt =====
-- How `trigger_events` of crates/flow/src/triggers.rs reads the value that names the primary state.
use rind.Prelude.{
  ℕ, ◌≡◌, ◌≢◌, refl, false, some, [], ◌∷◌, ◌++◌, ◌==◌, ==_iff, arith, ap, sym, ◌∙◌, Option-cases,
  Bool-cases, inl, inr, nat_beq_iff,
}
use rind.Text.{Text, text_eq}
use rind.Text.Split.{split_once, rsplit_once}
use rind.Json.{Json}
use rind.Payload.{JsonCodec}
use rind.Matching.{FlowInstance}
use rind.Facets.{Facets}
use rind.Dispatch.{facet_spec, resolve_value}

split_once-append :
    (c : ℕ) (s : Text) {p : Text × Text} → split_once c s ≡ some p → s ≡ p.0 ++ c ∷ p.1
unfolding split_once
split_once-append c [] h = cc
split_once-append c (d ∷ s) {p} h = elim (Option-cases (split_once c s)) [
  | inl missing ↦ ground (arith, missing, nat_beq_iff d c)
  | inr (q, found) ↦ ground (arith, found, split_once-append c s found, nat_beq_iff d c)
]

rsplit_once-append :
    (c : ℕ) (s : Text) {p : Text × Text} → rsplit_once c s ≡ some p → s ≡ p.0 ++ c ∷ p.1
unfolding rsplit_once
rsplit_once-append c [] h = cc
rsplit_once-append c (d ∷ s) {p} h = elim (Option-cases (rsplit_once c s)) [
  | inl missing ↦ ground (arith, missing, nat_beq_iff d c)
  | inr (q, found) ↦ ground (arith, found, rsplit_once-append c s found)
]

append-head : (a x y : Text) (c d : ℕ) → a ++ c ∷ x ≡ a ++ d ∷ y → c ≡ d
append-head [] x y c d h = ground arith
append-head (e ∷ a) x y c d h = append-head a x y c d (ground arith)

parts_apart :
    (c d : ℕ) (s : Text) {p q : Text × Text}
    → c ≢ d
    → rsplit_once c s ≡ some p
    → split_once d s ≡ some q
    → (q.0 == p.0) ≡ false
parts_apart c d s {p} {q} apart h g = elim (Bool-cases (q.0 == p.0)) [
  | inr other ↦ other
  | inl same ↦ absurd (
      apart (
        append-head p.0 p.1 q.1 c d (
          sym (rsplit_once-append c s h)
          ∙ split_once-append d s g
          ∙ ap (λ (t : Text). t ++ d ∷ q.1) ((==_iff q.0 p.0).0 same))))
]

-- The value whose facet names the primary state, up to the last colon, is resolved to the same for
-- every branch of that state.
pub resolve_value_same :
    (codec : JsonCodec) (facets : Facets) (v : Json) (spec : Text) (p : Text × Text)
    (branch other : FlowInstance)
    → facet_spec codec v ≡ some spec
    → rsplit_once b':' spec ≡ some p
    → resolve_value codec facets p.0 branch v ≡ resolve_value codec facets p.0 other v
unfolding resolve_value
resolve_value_same codec facets v spec p branch other h g =
    elim (Option-cases (split_once b'/' spec)) [
      | inl missing ↦ rw (h, missing, resolve_value) refl
      | inr (q, found) ↦
          let apart : (q.0 == p.0) ≡ false =
            parts_apart b':' b'/' spec (λ e. omega (arith, e)) g found in
          rw (h, found, apart, resolve_value) refl
    ]
