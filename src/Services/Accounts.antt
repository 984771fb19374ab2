-- ===== src/Services/Accounts.antt =====
-- Whom a service runs as: `resolve_user_from_source`, `resolve_service_user` and
-- `resolve_scope_default_user` of crates/services/src/services.rs.
pub mod Resolved
pub mod First
use rind.Prelude.{
  ℕ, Bool, true, false, not, ◌&&◌, ◌||◌, Option, none, some, List, [], ◌∷◌, any, if◌then◌else◌,
  ◌==◌,
}
use rind.Map
use rind.Text.{Text, codes, text_eq}
use rind.Payload.{JsonCodec, FlowPayload}
use rind.Matching.{FlowInstance}
use rind.Facets.{Facets}
use rind.Scopes.{ScopeStore, user_for_scope}
use rind.Error.{CoreError, CoreResult, ok, err, invalid_state, ◌>>=◌}
use rind.Services.{
  ChildInstance, Service, ServiceBranchContext, ServiceUserSource, ServiceSpace, system, user,
  user_selective,
}
use rind.Services.Branching.{payload_field_as_key}
use mathlib.Core.Option

-- `x.user != Some(user)`
unfoldable pub other_user : Text → Option Text → Bool
other_user name none = true
other_user name (some u) = not (u == name)

unfoldable pub free_for : Text → List ChildInstance → Bool
unfolding other_user
free_for name insts = any (λ x. other_user name x.user) insts

-- a branch's user where the loop takes it, or what the rest of the loop finds
unfoldable pub or_rest : Option Text → List ChildInstance → List Text → List Text
unfolding free_for
or_rest none insts rest = rest
or_rest (some name) insts rest = if free_for name insts then name ∷ [] else rest

-- what is done with the set of the users that were found, an error's text in a wording of its own
unfoldable pub only_one : Text → List Text → CoreResult (Option Text)
only_one message [] = ok none
only_one message (u ∷ []) = ok (some u)
only_one message (u ∷ v ∷ us) = err (invalid_state message)

-- a user that was found, or else what comes next
unfoldable pub or_next :
    CoreResult (Option Text) → CoreResult (Option Text) → CoreResult (Option Text)
or_next (err e) next = err e
or_next (ok none) next = next
or_next (ok (some name)) next = ok (some name)

-- `let Some(…) = … else { return Ok(None) }`
abbrev pub or_none {ℓ} :
    {A : Type ℓ} → Option A → (A → CoreResult (Option Text)) → CoreResult (Option Text)
or_none none next = ok none
or_none (some a) next = next a

module _ (codec : JsonCodec) where
  abbrev user_at : Text → FlowInstance → Option Text
  user_at field branch = payload_field_as_key codec branch.payload field

  -- the loops that look for a user, which end with the first that is found
  unfoldable pub free_users : Text → List ChildInstance → List FlowInstance → List Text
  unfolding or_rest
  free_users field insts [] = []
  free_users field insts (branch ∷ branches) =
      or_rest (user_at field branch) insts (free_users field insts branches)

  -- the branches whose field is the expected key
  unfoldable pub has_key : Text → Text → FlowInstance → Bool
  has_key field expected branch = elim (user_at field branch) [
    | none ↦ false
    | some found ↦ found == expected
  ]

  unfoldable pub matching_users :
      Text → Text → Text → List ChildInstance → List FlowInstance → List Text
  unfolding or_rest
  matching_users field expected name_field insts [] = []
  matching_users field expected name_field insts (branch ∷ branches) =
      let rest = matching_users field expected name_field insts branches in
      if has_key field expected branch then or_rest (user_at name_field branch) insts rest else rest

  abbrev branch_payload : Option ServiceBranchContext → Option FlowPayload
  branch_payload ctx = Option.bind ctx (λ c. c.payload)

  abbrev pub branch_key : Option ServiceBranchContext → Option Text
  branch_key ctx = Option.bind ctx (λ c. c.key)

  -- the user that the branch itself names
  unfoldable pub branch_user : ServiceUserSource → Option ServiceBranchContext → Option Text
  branch_user source ctx = elim (branch_payload ctx) [
    | none ↦ none
    | some payload ↦
        if source.branch then payload_field_as_key codec payload source.username_field else none
  ]

  unfoldable pub users_of_branches :
      ServiceUserSource
      → List ChildInstance
      → Option ServiceBranchContext
      → Text
      → List FlowInstance
      → CoreResult (Option Text)
  users_of_branches source insts ctx facet branches = elim source.match_branch_key [
    | none ↦ only_one facet (free_users source.username_field insts branches)
    | some field ↦ or_none (branch_key ctx) (λ expected.
        only_one facet (matching_users field expected source.username_field insts branches))
  ]

  unfoldable pub users_of_facet :
      ServiceUserSource
      → List ChildInstance
      → Option ServiceBranchContext
      → Facets
      → CoreResult (Option Text)
  users_of_facet source insts ctx facets =
      or_none source.facet
        (λ facet. or_none (Map.get facet facets) (users_of_branches source insts ctx facet))

  unfoldable pub resolve_user_from_source :
      Service
      → ServiceUserSource
      → Option ServiceBranchContext
      → Option Facets
      → CoreResult (Option Text)
  resolve_user_from_source service source ctx facets =
      or_none facets (λ sm.
        or_next (ok (branch_user source ctx)) (users_of_facet source service.instances ctx sm))

  -- the user of a session, where nothing else names one
  unfoldable pub session_user : Service → Option Facets → CoreResult (Option Text)
  session_user service facets = or_none facets (λ sm.
      or_none (Map.get (codes "rind:user_session") sm) (λ sessions.
        only_one service.metadata.name (free_users (codes "username") service.instances sessions)))

  unfoldable pub source_user :
      Service → Option ServiceBranchContext → Option Facets → CoreResult (Option Text)
  source_user service ctx facets =
      or_none service.metadata.user_source
        (λ source. resolve_user_from_source service source ctx facets)

  unfoldable pub space_user :
      ScopeStore
      → Service
      → Option ServiceBranchContext
      → Option Facets
      → Option Text
      → ServiceSpace
      → CoreResult (Option Text)
  space_user scopes service ctx facets scope system = ok none
  space_user scopes service ctx facets scope (user_selective name) = ok (some name)
  space_user scopes service ctx facets scope user =
      or_next (ok (Option.bind scope (user_for_scope scopes))) (
        or_next (source_user service ctx facets)
          (or_next (ok (branch_key ctx)) (session_user service facets)))

  unfoldable pub resolve_service_user :
      ScopeStore
      → Service
      → Option ServiceBranchContext
      → Option Facets
      → Option Text
      → CoreResult (Option Text)
  resolve_service_user scopes service ctx facets scope =
      or_next (ok (Option.bind ctx (λ c. c.forced_user)))
        (space_user scopes service ctx facets scope service.metadata.space)

abbrev is_system : ServiceSpace → Bool
is_system system = true
is_system _ = false

unfoldable pub resolve_scope_default_user : ScopeStore → Service → Option Text → Option Text
resolve_scope_default_user scopes service scope =
    if is_system service.metadata.space then Option.bind scope (user_for_scope scopes) else none
