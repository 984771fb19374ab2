-- ===== src/Scopes/Index.antt =====
-- The index `state_to_scope` of crates/primitives/src/scopes.rs against the scopes themselves.
use rind.Prelude.{
  ◌≡◌, ◌≢◌, ◌⊎◌, inl, inr, refl, false, Option, none, some, ◌==◌, ==_refl, ==_iff, Option-cases,
  Bool-cases, arith,
}
use rind.Map
use rind.Map.{Map}
use rind.Text.{Text, text_eq}
use rind.Scopes.{
  ScopeInfo, ScopeStore, moved, unmap_old, map_new, unmap, upsert, by_name, remove_scope,
  scope_for_state,
}

-- A state is mapped only to a scope that is there and lives as long as the state.
abbrev pub IsIndexed : ScopeStore → Type 0
IsIndexed s =
    (state scope : Text)
    → scope_for_state s state ≡ some scope
    → (info : ScopeInfo) × (by_name s scope ≡ some info) × (info.lifetime_state ≡ some state)

get-map_new :
    (name t scope : Text) (state : Option Text) (m : Map Text Text)
    → Map.get t (map_new name state m) ≡ some scope
    → ((state ≡ some t) × (name ≡ scope)) ⊎ (Map.get t m ≡ some scope)
unfolding map_new
get-map_new name t scope none m e = inr e
get-map_new name t scope (some state) m e = elim (Bool-cases (state == t)) [
  | inl same ↦ inl (ground (arith, ==_iff state t), ground (arith, Map.get-insert state t name m))
  | inr other ↦ inr (ground (arith, Map.get-insert state t name m))
]

get-remove_kept :
    (old t scope : Text) (m : Map Text Text)
    → Map.get t (Map.remove old m) ≡ some scope
    → (Map.get t m ≡ some scope) × (old ≢ t)
get-remove_kept old t scope m e = (
  ground (arith, Map.get-remove old t m),
  λ same. ground (arith, Map.get-remove old t m, ==_iff old t),
)

not_moved : (old : Text) (state : Option Text) → moved old state ≡ false → state ≡ some old
unfolding moved
not_moved old none e = ground arith
not_moved old (some new) e = ground (arith, ==_iff old new)

get-unmap_old :
    (t scope : Text) (existing : Option ScopeInfo) (state : Option Text) (m : Map Text Text)
    → Map.get t (unmap_old existing state m) ≡ some scope
    → (Map.get t m ≡ some scope)
      × ((info : ScopeInfo) → existing ≡ some info → info.lifetime_state ≡ some t → state ≡ some t)
unfolding unmap_old
get-unmap_old t scope none state m e = (e, λ info found. ground arith)
get-unmap_old t scope (some existing) state m e = elim (Option-cases existing.lifetime_state) [
  | inl none_yet ↦ (ground arith, λ info found lives. ground arith)
  | inr (old, lived) ↦ elim (Bool-cases (moved old state)) [
    | inl away ↦
        let (kept, other) = get-remove_kept old t scope m (ground arith) in
        (kept, λ info found lives. ground arith)
    | inr stays ↦ (ground arith, λ info found lives. ground (arith, not_moved old state stays))
  ]
]

-- upsert keeps it that each state in the index is mapped to a present scope that lives by that
-- state.
pub upsert-IsIndexed :
    (name : Text) (attributes : Map Text Text) (state : Option Text) (s : ScopeStore)
    → IsIndexed s
    → IsIndexed (upsert name attributes state s)
unfolding upsert scope_for_state by_name
upsert-IsIndexed name attributes state s h t scope e =
    let old_map = unmap_old (Map.get name s.scopes) state s.state_to_scope in
    let new_info : ScopeInfo = record {
      name = name;
      attributes = attributes;
      lifetime_state = state;
    } in
    elim (get-map_new name t scope state old_map e) [
      | inl (mapped, same) ↦ (
        new_info,
        ground (arith, Map.get-insert name scope new_info s.scopes, ==_iff name scope),
        mapped,
      )
      | inr before ↦
          let (found, lives_on) =
            get-unmap_old t scope (Map.get name s.scopes) state s.state_to_scope before in
          let (info, there, lives) = h t scope found in
          elim (Bool-cases (name == scope)) [
            | inl same ↦ (
              new_info,
              ground (arith, Map.get-insert name scope new_info s.scopes),
              lives_on info (ground (arith, ==_iff name scope)) lives,
            )
            | inr other ↦ (info, ground (arith, Map.get-insert name scope new_info s.scopes), lives)
          ]
    ]

get-unmap :
    (t scope : Text) (state : Option Text) (m : Map Text Text)
    → Map.get t (unmap state m) ≡ some scope
    → (Map.get t m ≡ some scope) × (state ≢ some t)
unfolding unmap
get-unmap t scope none m e = (e, λ x. ground arith)
get-unmap t scope (some state) m e =
    let (kept, other) = get-remove_kept state t scope m e in (kept, λ x. ground arith)

removed-IsIndexed :
    (name : Text) (s : ScopeStore) (info : ScopeInfo)
    → IsIndexed s
    → Map.get name s.scopes ≡ some info
    → IsIndexed (record s {
      scopes = Map.remove name s.scopes;
      state_to_scope = unmap info.lifetime_state s.state_to_scope;
    })
unfolding scope_for_state by_name
removed-IsIndexed name s info h found t scope e =
    let (kept, other) = get-unmap t scope info.lifetime_state s.state_to_scope e in
    let (i, there, lives) = h t scope kept in
    elim (Bool-cases (name == scope)) [
      | inl same ↦ absurd (ground (arith, ==_iff name scope))
      | inr apart ↦ (i, ground (arith, Map.get-remove name scope s.scopes), lives)
    ]

-- remove_scope keeps it that each state in the index is mapped to a present scope that lives by
-- that state.
pub remove_scope-IsIndexed :
    (name : Text) (s : ScopeStore) → IsIndexed s → IsIndexed (remove_scope name s).1
unfolding remove_scope
remove_scope-IsIndexed name s h = elim (Option-cases (Map.get name s.scopes)) [
  | inl missing ↦ rw (missing, remove_scope) h
  | inr (info, found) ↦ rw (found, remove_scope) (removed-IsIndexed name s info h found)
]

-- Of two scopes upserted with one lifetime state, removing the first leaves the state unmapped
-- though the second is present and lives by it.
pub remove_scope-shared :
    (a b state : Text) (xs ys : Map Text Text) (s : ScopeStore)
    → a ≢ b
    → let s' = (remove_scope a (upsert b ys (some state) (upsert a xs (some state) s))).1 in
      (scope_for_state s' state ≡ none)
      × ((info : ScopeInfo) × (by_name s' b ≡ some info) × (info.lifetime_state ≡ some state))
unfolding remove_scope upsert scope_for_state by_name unmap
remove_scope-shared a b state xs ys s ne =
    let info_a : ScopeInfo = record { name = a; attributes = xs; lifetime_state = some state } in
    let info_b : ScopeInfo = record { name = b; attributes = ys; lifetime_state = some state } in
    let with_a = Map.insert a info_a s.scopes in
    let with_b = Map.insert b info_b with_a in
    let at_a : Map.get a with_b ≡ some info_a = ground (
      arith,
      Map.get-insert b a info_b with_a,
      Map.get-insert a a info_a s.scopes,
      ==_refl a,
      ==_iff b a,
    ) in
    rw (at_a, remove_scope)
      (
        ground (
          arith,
          Map.get-remove state state
              (upsert b ys (some state) (upsert a xs (some state) s)).state_to_scope,
          ==_refl state,
        ),
        (
          info_b,
          ground (
            arith,
            Map.get-remove a b with_b,
            ==_iff a b,
            Map.get-insert b b info_b with_a,
            ==_refl b,
          ),
          refl,
        ),
      )
