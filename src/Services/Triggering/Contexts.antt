-- ===== src/Services/Triggering/Contexts.antt =====
-- The branches with which `evaluate_triggers` of crates/services/src/services.rs starts a service.
use rind.Prelude.{
  ℕ, suc, ◌≡◌, refl, sym, ap, Bool, true, Option, none, some, List, [], ◌∷◌, map, all, All,
  Bool-cases, Option-cases, inl, inr, if◌then◌else◌,
}
use rind.Json.Mem.{Mem, here, there}
use rind.Text.{Text, text_eq}
use rind.Error.{CoreResult, ok}
use rind.Payload.{JsonCodec, FlowPayload}
use rind.Matching.{FlowInstance, FlowItem}
use rind.Facets.{Facets}
use rind.Flow.Impulses.{condition_matches}
use rind.Variables.{Toml}
use rind.Services.{ChildInstance, BranchingConfig, ServiceBranchContext}
use rind.Services.Branching.{
  TomlReader, Heap, branch_key_from_payload, check_branch_match, branches_to_start, wanted,
  at_limit, context_for,
}
use rind.Services.Branching.Wanted.{IsLet, IsSpared, lets_start, lets_start-IsWanted}
use rind.Services.Triggering.{Declared, should_start}
use rind.Services.Triggering.Targets.{Start, starts_of, branches_of}
use mathlib.Core.Option

module _ (key_of : FlowPayload → Option Text) (matches : Text → Text → Bool)
    (config : BranchingConfig) where
  -- A branch that has the key, which lets_start `only` and `except`.
  abbrev pub IsBranch : List FlowInstance → ServiceBranchContext → Type 0
  IsBranch branches context =
      (branch : FlowInstance) × (key : Text) × Mem branch branches
      × (key_of branch.payload ≡ some key)
      × (context ≡ context_for key branch.payload)
      × IsLet key_of matches config.only key
      × IsSpared key_of matches config.except key

  from_wanted :
      (insts : List ChildInstance) (branches : List FlowInstance) (branch : FlowInstance)
      (key : Text) (o : Option Text)
      → key_of branch.payload ≡ o
      → Mem branch branches
      → Option.bind o (λ k. if lets_start key_of matches config insts k then some k else none)
        ≡ some key
      → IsBranch branches (context_for key branch.payload)
  unfolding Option.bind
  from_wanted insts branches branch key none e m h = cc
  from_wanted insts branches branch key (some k) e m h =
      elim (Bool-cases (lets_start key_of matches config insts k)) [
        | inr p ↦ let q = rw p at h in cc
        | inl p ↦
            let same : k ≡ key = Option.some-injective k key (rw p at h) in
            let fits = lets_start-IsWanted key_of matches config insts k branch.payload p in
            (branch, k, m, e, ap (λ t. context_for t branch.payload) (sym same), fits.1, fits.2)
      ]

  branches_to_start-IsBranch :
      (insts : List ChildInstance) (all_branches branches : List FlowInstance) (started : ℕ)
      → ((branch : FlowInstance) → Mem branch branches → Mem branch all_branches)
      → All (IsBranch all_branches) (branches_to_start key_of matches config insts started branches)
  unfolding branches_to_start wanted
  branches_to_start-IsBranch insts bs [] started inside = tt
  branches_to_start-IsBranch insts bs (b ∷ branches) started inside =
      elim (Option-cases (wanted key_of matches config insts b)) [
        | inl w ↦
            rw (branches_to_start, w)
              (branches_to_start-IsBranch insts bs branches started (λ x m. inside x (there m)))
        | inr (key, w) ↦ elim (Bool-cases (at_limit config.max_instances insts started)) [
          | inl full ↦ rw (branches_to_start, w, full) tt
          | inr room ↦
              rw (branches_to_start, w, room)
                (
                  from_wanted insts bs b key (key_of b.payload) refl (inside b here) w,
                  branches_to_start-IsBranch insts bs branches (suc started)
                      (λ x m. inside x (there m)),
                )
        ]
      ]

All-map {ℓ} :
    {A B : Type ℓ} (P : B → Type 0) (f : A → B) (xs : List A)
    → All (λ x. P (f x)) xs
    → All P (map f xs)
All-map P f [] h = tt
All-map P f (x ∷ xs) h = (h.0, All-map P f xs h.1)

pub All-imp {ℓ} :
    {A : Type ℓ} (P Q : A → Type 0) (xs : List A) → ((x : A) → P x → Q x) → All P xs → All Q xs
All-imp P Q [] imp h = tt
All-imp P Q (x ∷ xs) imp h = (imp x h.0, All-imp P Q xs imp h.1)

pub All-nil {ℓ} : {A : Type ℓ} (P : A → Type 0) (xs : List A) → CoreResult.ok [] ≡ ok xs → All P xs
All-nil P [] h = tt
All-nil P (x ∷ xs) h = cc

all_met {ℓ} : {A : Type ℓ} (p : A → Bool) (xs : List A) → all p xs ≡ true → All (λ x. p x ≡ true) xs
all_met p [] h = tt
all_met p (x ∷ xs) h = elim (Bool-cases (p x)) [
  | inl e ↦ (e, all_met p xs (rw e at h))
  | inr e ↦ let k = rw e at h in cc
]

module _ (codec : JsonCodec) (toml : Toml) (reader : TomlReader toml) (event : Option FlowInstance)
    (facets : Facets) (vh : Heap toml) where
  -- No branch where the service has no branching, and else one that may be started.
  abbrev pub IsContext : Option BranchingConfig → Option ServiceBranchContext → Type 0
  IsContext none context = context ≡ none
  IsContext (some branching) context =
      (c : ServiceBranchContext) × (context ≡ some c)
      × IsBranch (λ payload. branch_key_from_payload codec payload branching.key)
          (check_branch_match codec toml reader (some vh) facets) branching
          (branches_of event facets branching) c

  -- There are conditions, and all are met.
  abbrev pub IsMet : Option (List FlowItem) → Type 0
  IsMet start_on =
      (conds : List FlowItem) × (start_on ≡ some conds)
      × All (λ cond. condition_matches codec facets cond event none ≡ true) conds

  pub should_start-IsMet :
      (start_on : Option (List FlowItem))
      → should_start codec facets event start_on ≡ true
      → IsMet start_on
  unfolding should_start
  should_start-IsMet none h = cc
  should_start-IsMet (some conds) h = (conds, refl, all_met _ conds h)

  pub starts_of-IsContext :
      (name : Text) (d : Declared) (insts : List ChildInstance) (branching : Option BranchingConfig)
      → d.branching ≡ branching
      → All
          (λ s. (s.0 ≡ name) × IsContext d.branching s.1)
          (starts_of event facets codec toml reader vh name d insts)
  unfolding starts_of
  starts_of-IsContext name d insts none e = rw (starts_of, e) ((refl, refl), tt)
  starts_of-IsContext name d insts (some b) e =
      let key_of : FlowPayload → Option Text =
        λ payload. branch_key_from_payload codec payload b.key in
      let matches : Text → Text → Bool = check_branch_match codec toml reader (some vh) facets in
      let found = branches_of event facets b in
      rw (starts_of, e)
        (All-map (λ (s : Start). (s.0 ≡ name) × IsContext (some b) s.1) (λ c. (name, some c)) _
          (All-imp (IsBranch key_of matches b found) _ _ (λ c h. (refl, (c, refl, h)))
            (branches_to_start-IsBranch key_of matches b insts found found 0 (λ x m. m))))
