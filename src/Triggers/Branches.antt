-- ===== src/Triggers/Branches.antt =====
-- What the mapping of a payload in crates/flow/src/triggers.rs carries over.
use rind.Prelude.{
  ◌≡◌, ◌≢◌, some, List, [], ◌∷◌, ==_iff, ==_refl, All, arith, Option-cases, inl, inr,
}
use rind.Map
use rind.Map.{Map}
use rind.Text.{Text, text_eq}
use rind.Triggers.{branch_target_key, branch_source_key, map_specs, map_json_payload}

-- No two specs have the same target.
abbrev pub Apart : List Text → Type 0
Apart [] = Unit {0}
Apart (spec ∷ specs) =
    All (λ (other : Text). branch_target_key other ≢ branch_target_key spec) specs × Apart specs

module _ {V : Type 0} (source : Map Text V) where
  abbrev pub Carried : Map Text V → Text → Type 0
  Carried result spec =
      Map.get (branch_target_key spec) result ≡ Map.get (branch_source_key spec) source

  map_specs_others :
      (key : Text) (specs : List Text) (mapped result : Map Text V)
      → All (λ (other : Text). branch_target_key other ≢ key) specs
      → map_specs source specs mapped ≡ some result
      → Map.get key result ≡ Map.get key mapped
  unfolding map_specs
  map_specs_others key [] mapped result h e = ground arith
  map_specs_others key (spec ∷ specs) mapped result h e =
      elim (Option-cases (Map.get (branch_source_key spec) source)) [
        | inl missing ↦ absurd (ground arith)
        | inr (value, found) ↦
            let next = Map.insert (branch_target_key spec) value mapped in
            ground (
              arith,
              map_specs_others key specs next result h.1,
              Map.get-insert (branch_target_key spec) key value mapped,
              ==_iff (branch_target_key spec) key,
              h.0,
            )
      ]

  map_specs-Carried :
      (specs : List Text) (mapped result : Map Text V)
      → Apart specs
      → map_specs source specs mapped ≡ some result
      → All (Carried result) specs
  unfolding map_specs
  map_specs-Carried [] mapped result h e = tt
  map_specs-Carried (spec ∷ specs) mapped result h e =
      elim (Option-cases (Map.get (branch_source_key spec) source)) [
        | inl missing ↦ absurd (ground arith)
        | inr (value, found) ↦
            let next = Map.insert (branch_target_key spec) value mapped in
            let rest : map_specs source specs next ≡ some result = ground arith in
            let kept = map_specs_others (branch_target_key spec) specs next result h.0 rest in
            (
              ground (
                arith,
                kept,
                Map.get-insert (branch_target_key spec) (branch_target_key spec) value mapped,
                ==_refl (branch_target_key spec),
              ),
              map_specs-Carried specs next result h.1 rest,
            )
      ]

  -- Where map_json_payload maps an object and no two specs have the same target, the result has
  -- under the target of every spec what the object has under its source.
  pub map_json_payload-Carried :
      (specs : List Text) (result : Map Text V)
      → Apart specs
      → map_json_payload specs source ≡ some result
      → All (Carried result) specs
  unfolding map_json_payload
  map_json_payload-Carried specs result h e = map_specs-Carried specs [] result h e
