-- ===== src/Examples/ScopeFiles.antt =====
-- The theorems about the scopes of crates/flow/src/flow.rs with one facet of the scope `a`.
use rind.Prelude.{
  subst, ℕ, ◌≡◌, ◌⊎◌, inl, inr, refl, false, none, some, List, [], ◌∷◌, if◌then◌else◌, ◌==◌, ◌&&◌,
  arith,
}
use rind.Map
use rind.Map.Unique.{Unique}
use rind.Text.{Text, codes, text_eq}
use rind.Text.Split.{rsplit_once, contains, starts_with, ends_with}
use rind.Error.{ok}
use rind.Payload.{FlowPayload}
use rind.Matching.{FlowInstance, FlowType}
use rind.Persistence.{
  StateSnapshot, Libraries, IsSound, Outcome, write_snapshot, write_bytes, encode_snapshot,
  sync_parent_dir,
}
use rind.Facets.{
  Facets, EntryCodec, retained, scope_from_state_name, is_impermanent, per_scope, or_default,
  file_of, save_scopes, save_all_scopes, load_scope_from_persistence,
}
use rind.Facets.Scopes.{retained-get}
use rind.Facets.Restored.{load_scope-save_all_scopes}

abbrev seat : Text
seat = codes "seat@a"

abbrev taken : FlowInstance
taken = record { name = seat; payload = FlowPayload.string (codes "one"); type = FlowType.facet }

abbrev facets : Facets
facets = (seat, taken ∷ []) ∷ []

-- The branch `taken` is coded as no byte, and a snapshot with such a branch of one facet by the name
-- of the facet.
abbrev branch_codec : EntryCodec
branch_codec = record { encode = λ x. []; decode = λ bytes. some taken }

abbrev encode : StateSnapshot → Text ⊎ List ℕ
encode [] = inr []
encode ((name, [] ∷ []) ∷ []) = inr (1 ∷ name)
encode _ = inl (codes "too large")

abbrev decode : List ℕ → Text ⊎ StateSnapshot
decode [] = inr []
decode (c ∷ name) = inr ((name, [] ∷ []) ∷ [])

abbrev tiny : Libraries
tiny = record { encode_to_vec = encode; decode_from_slice = decode; hash = λ bytes. 77 }

abbrev coded : List ℕ → Text ⊎ List ℕ
coded bytes = inr bytes

inr-injective : {x y : List ℕ} → coded x ≡ coded y → x ≡ y
inr-injective h = cc

decode-encode : (s : StateSnapshot) (bytes : List ℕ) → encode s ≡ inr bytes → decode bytes ≡ inr s
decode-encode [] bytes h = subst (λ (b : List ℕ). decode b ≡ inr []) (inr-injective h) refl
decode-encode ((name, [] ∷ []) ∷ []) bytes h =
    subst (λ (b : List ℕ). decode b ≡ inr ((name, [] ∷ []) ∷ [])) (inr-injective h) refl
decode-encode s bytes h = absurd (ground arith)

facets-Unique : Unique facets
unfolding Map.get
facets-Unique = (refl, tt)

tiny-IsSound : IsSound tiny
tiny-IsSound = record { decodes = decode-encode; hash_u32 = λ bytes. omega arith }

saved : (save_all_scopes tiny branch_codec (λ scope. Outcome.done) facets []).0 ≡ ok tt
unfolding save_all_scopes per_scope or_default save_scopes file_of write_snapshot encode_snapshot
    write_bytes sync_parent_dir scope_from_state_name is_impermanent rsplit_once contains
    starts_with ends_with Map.get Map.get_or Map.insert
saved = refl

permanent : is_impermanent seat ≡ false
unfolding is_impermanent contains starts_with ends_with
permanent = refl

present : Map.get seat facets ≡ some (taken ∷ [])
unfolding Map.get
present = refl

load_scope-save_all_scopes_example :
    (loaded : Facets) × (load_scope_from_persistence tiny branch_codec
        (scope_from_state_name seat)
        (save_all_scopes tiny branch_codec (λ scope. Outcome.done) facets []).1
        []
      ≡ ok loaded)
    × (Map.get seat loaded ≡ some (taken ∷ []))
load_scope-save_all_scopes_example =
    load_scope-save_all_scopes tiny branch_codec (λ scope. Outcome.done) facets [] seat (taken ∷ [])
      tiny-IsSound facets-Unique ((refl, refl), tt) permanent present saved

plain : rsplit_once b'@' (codes "a") ≡ none
unfolding rsplit_once
plain = refl

retained-get_example : Map.get seat (retained (codes "a") facets) ≡ (
    if contains (codes "@") seat && codes "a" == scope_from_state_name seat
    then none
    else Map.get seat facets)
retained-get_example = retained-get (codes "a") seat facets plain
