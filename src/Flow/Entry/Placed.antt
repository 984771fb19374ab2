-- ===== src/Flow/Entry/Placed.antt =====
-- Where `set_facet` of crates/flow/src/flow.rs puts a payload among the branches of a facet.
use rind.Prelude.{
  ◌≡◌, ◌⊎◌, refl, subst, ◌∙◌, ap, sym, Bool-cases, Option-cases, inl, inr, true, Option, none, some,
  List, [], ◌∷◌, ◌==◌, ==_iff, ==_refl,
}
use rind.Text.{Text, text_eq}
use rind.Json.{Json, object, Entries, get}
use rind.Payload.{JsonCodec, FlowPayload, into_json}
use rind.Matching.{FlowInstance}
use rind.Flow.{FlowFacet}
use rind.Flow.Entry.{
  keys_beq, json_branch_key, merge_json, branch_keys, has_key, merge_payload, merge_branch,
  apply_entry,
}
use rind.Flow.Entry.Keys.{HasKeys, json_branch_key-HasKeys, HasKeys-json_branch_key}
use rind.Flow.Entry.Merged.{PlainKeys, PlainFields, either, merge_json-get}

keys_beq_eq : (xs ys : List Text) → keys_beq xs ys ≡ true → xs ≡ ys
keys_beq_eq [] [] h = refl
keys_beq_eq [] (y ∷ ys) h = cc
keys_beq_eq (x ∷ xs) [] h = cc
keys_beq_eq (x ∷ xs) (y ∷ ys) h = elim (Bool-cases (x == y)) [
  | inl e ↦
      let rest : keys_beq xs ys ≡ true = rw e at h in
      let same = (==_iff x y).0 e in let others = keys_beq_eq xs ys rest in cc
  | inr e ↦ let k = rw e at h in cc
]

keys_beq_self : (xs : List Text) → keys_beq xs xs ≡ true
keys_beq_self [] = refl
keys_beq_self (x ∷ xs) = rw (==_refl x) (keys_beq_self xs)

-- Two objects and their merge: each field is the new one where there is one, and else the old one.
abbrev pub Merges : Json → Json → Json → Type 0
Merges old new result =
    (es : Entries) × (result ≡ object es)
    × ((k : Text) → get k result ≡ either (get k new) (get k old))

module _ (codec : JsonCodec) (keys : List Text) where
  -- A branch of JSON that has the values of the branch keys.
  abbrev pub IsBranch : List Text → FlowInstance → Type 0
  IsBranch key branch =
      (s : Text) × (branch.payload ≡ FlowPayload.json s)
      × HasKeys codec (into_json codec s) keys key

  -- The specification: the first branch with the values takes the new fields, and where there is
  -- none the new instance comes behind the others.
  pub data Placed (new : Json) (key : List Text) (instance_ : FlowInstance)
      : List FlowInstance → List FlowInstance → Type 0 where
    pushed : Placed new key instance_ [] (instance_ ∷ [])
    merged :
        (branch : FlowInstance) (branches : List FlowInstance) (s : Text) (result : Json)
        → branch.payload ≡ FlowPayload.json s
        → HasKeys codec (into_json codec s) keys key
        → Merges (into_json codec s) new result
        → Placed new key instance_
            (branch ∷ branches)
            (record branch { payload = FlowPayload.json (codec.to_string result) } ∷ branches)
    passed :
        (branch : FlowInstance) (branches placed : List FlowInstance)
        → ¬ IsBranch key branch
        → Placed new key instance_ branches placed
        → Placed new key instance_ (branch ∷ branches) (branch ∷ placed)

  by_payload :
      (key : List Text) (branch : FlowInstance) (payload : FlowPayload)
      → branch.payload ≡ payload
      → has_key codec keys key branch ≡ true
      → IsBranch key branch
  unfolding has_key
  by_payload key branch (FlowPayload.json s) e h =
      elim (Option-cases (json_branch_key codec (into_json codec s) keys)) [
        | inl none_there ↦ let k = rw (e, none_there, has_key) at h in cc
        | inr (existing, there) ↦
            let same : keys_beq existing key ≡ true = rw (e, there, has_key) at h in
            (
              s,
              e,
              json_branch_key-HasKeys codec (into_json codec s) keys key
                  (there ∙ ap some (keys_beq_eq existing key same)),
            )
      ]
  by_payload key branch (FlowPayload.string s) e h = let k = rw (e, has_key) at h in cc
  by_payload key branch (FlowPayload.bytes b) e h = let k = rw (e, has_key) at h in cc
  by_payload key branch (FlowPayload.none b) e h = let k = rw (e, has_key) at h in cc

  IsBranch-has_key :
      (key : List Text) (branch : FlowInstance)
      → IsBranch key branch
      → has_key codec keys key branch ≡ true
  unfolding has_key
  IsBranch-has_key key branch (s, e, there) =
      rw (e, HasKeys-json_branch_key codec (into_json codec s) keys key there, has_key)
        (keys_beq_self key)

  merge_json-Merges :
      (old new : Json) (a b : Entries)
      → old ≡ object a
      → new ≡ object b
      → PlainFields new
      → Merges old new (merge_json old new)
  unfolding merge_json get
  merge_json-Merges old new a b e f h =
      let plain : PlainKeys b = rw f at h in rw (e, f) (_, refl, λ k. merge_json-get k a b plain)

  merge_branch-Placed :
      (new : Json) (key : List Text) (instance_ : FlowInstance) (branches : List FlowInstance)
      → json_branch_key codec new keys ≡ some key
      → PlainFields new
      → Placed new key instance_ branches (merge_branch codec keys new key instance_ branches)
  unfolding merge_branch
  merge_branch-Placed new key instance_ [] h plain = pushed
  merge_branch-Placed new key instance_ (branch ∷ branches) h plain =
      elim (Bool-cases (has_key codec keys key branch)) [
        | inr e ↦
            let fresh : ¬ IsBranch key branch =
              λ is. let k = sym (IsBranch-has_key key branch is) ∙ e in cc in
            rw (e, merge_branch)
              (passed branch branches _ fresh
                (merge_branch-Placed new key instance_ branches h plain))
        | inl e ↦
            let (s, json, there) = by_payload key branch branch.payload refl e in
            let (a, old) = there.0 in
            let (b, given) = (json_branch_key-HasKeys codec new keys key h).0 in
            let found : Placed new key instance_ (branch ∷ branches) (
                record branch { payload = merge_payload codec keys new (FlowPayload.json s) }
                ∷ branches) =
              merged branch branches s (merge_json (into_json codec s) new) json there
                (merge_json-Merges (into_json codec s) new a b old given plain) in
            rw (e, merge_branch)
              (subst
                (λ p.
                  Placed new key instance_ (branch ∷ branches)
                    (record branch { payload = merge_payload codec keys new p } ∷ branches))
                (sym json) found)
      ]

-- A payload of JSON has plain fields.
abbrev pub PlainPayload : JsonCodec → FlowPayload → Type 0
PlainPayload codec (FlowPayload.json s) = PlainFields (into_json codec s)
PlainPayload codec payload = Unit {0}

-- The specification: a payload that is no JSON stands alone, one of JSON is placed by the values of
-- its branch keys, and one that lacks them leaves the branches as they were.
abbrev pub Applied :
    JsonCodec → FlowFacet → FlowInstance → List FlowInstance → List FlowInstance → Type 0
Applied codec def instance_ entry result =
    (((s : Text) → ¬ (instance_.payload ≡ FlowPayload.json s)) × (result ≡ instance_ ∷ []))
    ⊎ (((s : Text) × (key : List Text) × (instance_.payload ≡ FlowPayload.json s)
          × HasKeys codec (into_json codec s) (branch_keys def) key
          × Placed codec (branch_keys def) (into_json codec s) key instance_ entry result)
        ⊎ ((s : Text) × (instance_.payload ≡ FlowPayload.json s)
            × ((key : List Text) → ¬ HasKeys codec (into_json codec s) (branch_keys def) key)
            × (result ≡ entry)))

-- the branches that `set_facet` leaves of an entry
abbrev pub or_entry : Option (List FlowInstance) → List FlowInstance → List FlowInstance
or_entry none entry = entry
or_entry (some branches) entry = branches

pub apply_entry-Applied :
    (codec : JsonCodec) (def : FlowFacet) (instance_ : FlowInstance) (entry : List FlowInstance)
    (payload : FlowPayload)
    → instance_.payload ≡ payload
    → PlainPayload codec payload
    → Applied codec def instance_ entry (or_entry (apply_entry codec def instance_ entry) entry)
unfolding apply_entry
apply_entry-Applied codec def instance_ entry (FlowPayload.json s) e plain =
    elim (Option-cases (json_branch_key codec (into_json codec s) (branch_keys def))) [
      | inl lacking ↦
          let kept : or_entry (apply_entry codec def instance_ entry) entry ≡ entry =
            rw (e, lacking, apply_entry) refl in
          let none_has : (key : List Text)
              → ¬ HasKeys codec (into_json codec s) (branch_keys def) key =
            λ key has.
              let there =
                HasKeys-json_branch_key codec (into_json codec s) (branch_keys def) key has in
              let k = sym lacking ∙ there in cc in
          inr (inr (s, e, none_has, kept))
      | inr (key, there) ↦
          let new = into_json codec s in
          let value : apply_entry codec def instance_ entry
              ≡ some (merge_branch codec (branch_keys def) new key instance_ entry) =
            simp (e, there, apply_entry) in
          let placed =
            merge_branch-Placed codec (branch_keys def) new key instance_ entry there plain in
          subst (λ o. Applied codec def instance_ entry (or_entry o entry)) (sym value)
            (inr (
              inl
                (s, key, e, json_branch_key-HasKeys codec new (branch_keys def) key there, placed)))
    ]
apply_entry-Applied codec def instance_ entry (FlowPayload.string s) e plain =
    inl ((λ t f. let k = sym e ∙ f in cc), simp (e, apply_entry))
apply_entry-Applied codec def instance_ entry (FlowPayload.bytes b) e plain =
    inl ((λ t f. let k = sym e ∙ f in cc), simp (e, apply_entry))
apply_entry-Applied codec def instance_ entry (FlowPayload.none b) e plain =
    inl ((λ t f. let k = sym e ∙ f in cc), simp (e, apply_entry))
