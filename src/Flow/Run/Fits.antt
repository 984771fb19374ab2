-- ===== src/Flow/Run/Fits.antt =====
-- The invariant of the facets of crates/flow/src/flow.rs: the branches of a facet carry its name and
-- its declared type of payload, and only JSON has several of them.
use rind.Prelude.{
  ℕ, ◌≡◌, refl, Bool, true, false, none, some, List, [], ◌∷◌, ◌||◌, subst, arith, Option-cases,
  Bool-cases, inl, inr, filter, length, leb, All, leb→le, le→leb, ◌≤◌,
}
use rind.Map.Entries.{AllEntries}
use rind.Text.{Text, text_eq}
use rind.Json.{Json}
use rind.Payload.{FlowPayload, into_json}
use rind.Matching as Matching
use rind.Matching.{FlowInstance, FlowType, FlowPayloadType, payload_type_ok}
use rind.Flow.{FlowFacet, FlowState}
use rind.Flow.Entry.{
  apply_entry, merge_branch, merge_payload, has_key, branch_keys, json_branch_key,
}
use rind.Flow.Reconcile.{Context, Request}
use rind.Flow.Run.{run}
use rind.Flow.Run.Keeps.{IsKept, run-Keeps}

abbrev pub is_json : FlowPayloadType → Bool
is_json Matching.json = true
is_json t = false

-- The payload has the type that the facet of the name declares.
unfoldable pub typed : Context → Text → FlowPayload → Bool
typed c name payload = elim (c.find name) [
  | none ↦ true
  | some def ↦ payload_type_ok def.payload payload
]

unfoldable pub may_have : Context → Text → ℕ → Bool
may_have c name n = elim (c.find name) [ none ↦ true | some def ↦ is_json def.payload || leb n 1 ]

abbrev pub BranchFits : Context → Text → FlowInstance → Type 0
BranchFits c name b = (b.name ≡ name) × (typed c name b.payload ≡ true)

abbrev pub Fits : Context → Text → List FlowInstance → Type 0
Fits c name bs = All (BranchFits c name) bs × (may_have c name (length bs) ≡ true)

json_type :
    (t : FlowPayloadType) (s : Text)
    → payload_type_ok t (FlowPayload.json s) ≡ true
    → t ≡ Matching.json
unfolding payload_type_ok
json_type Matching.json s h = refl
json_type Matching.string s h = cc
json_type Matching.bytes s h = cc
json_type Matching.none_type s h = cc

json_type-ok :
    (t : FlowPayloadType) (s u : Text)
    → payload_type_ok t (FlowPayload.json s) ≡ true
    → payload_type_ok t (FlowPayload.json u) ≡ true
unfolding payload_type_ok
json_type-ok Matching.json s u h = refl
json_type-ok Matching.string s u h = cc
json_type-ok Matching.bytes s u h = cc
json_type-ok Matching.none_type s u h = cc

filter-All :
    (P : FlowInstance → Type 0) (test : FlowInstance → Bool) (bs : List FlowInstance)
    → All P bs
    → All P (filter test bs)
filter-All P test [] h = tt
filter-All P test (b ∷ bs) h = elim (Bool-cases (test b)) [
  | inl passes ↦ rw passes (h.0, filter-All P test bs h.1)
  | inr fails ↦ rw fails (filter-All P test bs h.1)
]

length-filter :
    (test : FlowInstance → Bool) (bs : List FlowInstance) → length (filter test bs) ≤ length bs
length-filter test [] = omega arith
length-filter test (b ∷ bs) = ground (arith, length-filter test bs)

module _ (c : Context) (name : Text) where
  may_have-le : (m n : ℕ) → m ≤ n → may_have c name n ≡ true → may_have c name m ≡ true
  unfolding may_have
  may_have-le m n le h = ground (arith, leb→le n 1, le→leb m 1)

  may_have_few : (n : ℕ) → n ≤ 1 → may_have c name n ≡ true
  unfolding may_have
  may_have_few n le = ground (arith, le→leb n 1)

  module _ (def : FlowFacet) (found : c.find name ≡ some def) where
    typed-ok : (p : FlowPayload) → payload_type_ok def.payload p ≡ true → typed c name p ≡ true
    unfolding typed
    typed-ok p h = rw (found, typed) h

    typed-merge_payload :
        (s : Text) (new : Json) (keys : List Text) (p : FlowPayload)
        → payload_type_ok def.payload (FlowPayload.json s) ≡ true
        → typed c name p ≡ true
        → typed c name (merge_payload c.codec keys new p) ≡ true
    typed-merge_payload s new keys (FlowPayload.json t) h i =
        typed-ok (FlowPayload.json _) (json_type-ok def.payload s _ h)
    typed-merge_payload s new keys (FlowPayload.string t) h i = i
    typed-merge_payload s new keys (FlowPayload.bytes t) h i = i
    typed-merge_payload s new keys (FlowPayload.none t) h i = i

    only :
        (payload : FlowPayload) (branches : List FlowInstance)
        → payload_type_ok def.payload payload ≡ true
        → (record { name = name; payload = payload; type = FlowType.facet } ∷ []) ≡ branches
        → Fits c name branches
    only payload branches h is =
        subst (λ (bs : List FlowInstance). Fits c name bs) is
          (((refl, typed-ok payload h), tt), may_have_few 1 (omega arith))

    merge_branch-BranchFits :
        (s : Text) (new : Json) (keys new_key : List Text) (instance_ : FlowInstance)
        (bs : List FlowInstance)
        → payload_type_ok def.payload (FlowPayload.json s) ≡ true
        → BranchFits c name instance_
        → All (BranchFits c name) bs
        → All (BranchFits c name) (merge_branch c.codec keys new new_key instance_ bs)
    unfolding merge_branch
    merge_branch-BranchFits s new keys new_key instance_ [] h i old = (i, tt)
    merge_branch-BranchFits s new keys new_key instance_ (b ∷ bs) h i old =
        elim (Bool-cases (has_key c.codec keys new_key b)) [
          | inl here ↦
              rw (here) ((old.0.0, typed-merge_payload s new keys b.payload h old.0.1), old.1)
          | inr elsewhere ↦
              rw (elsewhere)
                (old.0, merge_branch-BranchFits s new keys new_key instance_ bs h i old.1)
        ]

    may_have-json :
        (s : Text) (n : ℕ)
        → payload_type_ok def.payload (FlowPayload.json s) ≡ true
        → may_have c name n ≡ true
    unfolding may_have
    may_have-json s n h = rw (found, may_have, json_type def.payload s h) refl

    applied :
        (payload : FlowPayload) (entry branches : List FlowInstance)
        → payload_type_ok def.payload payload ≡ true
        → Fits c name entry
        → apply_entry c.codec def
            (record { name = name; payload = payload; type = FlowType.facet })
            entry
          ≡ some branches
        → Fits c name branches
    unfolding apply_entry
    applied (FlowPayload.json s) entry branches h old made =
        elim (Option-cases (json_branch_key c.codec (into_json c.codec s) (branch_keys def))) [
          | inl missing ↦ absurd (ground (arith, made, missing))
          | inr (new_key, keyed) ↦
              let instance_ : FlowInstance = record {
                name = name;
                payload = FlowPayload.json s;
                type = FlowType.facet;
              } in
              let merged =
                merge_branch c.codec (branch_keys def) (into_json c.codec s) new_key instance_
                  entry in
              let is : merged ≡ branches = ground (arith, made, keyed) in
              (
                subst (λ (bs : List FlowInstance). All (BranchFits c name) bs) is
                    (merge_branch-BranchFits s (into_json c.codec s) (branch_keys def) new_key
                      instance_ entry h (refl, typed-ok (FlowPayload.json s) h) old.0),
                may_have-json s (length branches) h,
              )
        ]
    applied (FlowPayload.string s) entry branches h old made =
        only (FlowPayload.string s) branches h (ground arith)
    applied (FlowPayload.bytes s) entry branches h old made =
        only (FlowPayload.bytes s) branches h (ground arith)
    applied (FlowPayload.none s) entry branches h old made =
        only (FlowPayload.none s) branches h (ground arith)

pub Fits-IsKept : (c : Context) → IsKept c (Fits c)
Fits-IsKept c = record {
  nothing = λ name. (tt, may_have_few c name 0 (omega arith));
  applied = λ name def payload entry branches found h old made.
      applied c name def found payload entry branches h old made;
  parted = λ name test bs h. (
    filter-All (BranchFits c name) test bs h.0,
    may_have-le c name (length (filter test bs)) (length bs) (length-filter test bs) h.1,
  );
}

-- Setting or removing a facet, with all that follows from it and whether it succeeds or not, keeps
-- it that every branch carries the name of its facet and a payload of the declared type, and that
-- only a facet of JSON has more than one branch.
pub run-Fits :
    (c : Context) (fuel : ℕ) (request : Request) (st : FlowState)
    → AllEntries (Fits c) st.facets
    → AllEntries (Fits c) (run c fuel request st).1.facets
run-Fits c fuel request st h = run-Keeps c (Fits c) (Fits-IsKept c) fuel request st h
