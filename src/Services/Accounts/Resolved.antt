-- ===== src/Services/Accounts/Resolved.antt =====
-- The user of a service is always resolved: the errors for several users are never met, since each
-- loop ends with the first one.
use rind.Prelude.{arith, inl, inr, Option, none, some, List, [], ◌∷◌, Bool-cases, ◌≤◌, length}
use rind.Text.{Text, codes, text_eq}
use rind.Map
use rind.Payload.{JsonCodec}
use rind.Matching.{FlowInstance}
use rind.Facets.{Facets}
use rind.Scopes.{ScopeStore, user_for_scope}
use rind.Error.{CoreResult, ok, err}
use rind.Services.{
  ChildInstance, Service, ServiceBranchContext, ServiceUserSource, ServiceSpace, system, user,
  user_selective,
}
use mathlib.Core.Option
use rind.Services.Branching.{payload_field_as_key}
use rind.Services.Accounts.{
  or_rest, free_users, matching_users, has_key, free_for, only_one, users_of_branches,
  users_of_facet, resolve_user_from_source, branch_key, session_user, or_next, or_none, source_user,
  space_user, resolve_service_user, branch_user,
}

-- A result that is no error.
abbrev pub IsOk : CoreResult (Option Text) → Type 0
IsOk (ok a) = Unit
IsOk (err e) = ⊥

length-or_rest :
    (found : Option Text) (insts : List ChildInstance) (rest : List Text)
    → length rest ≤ 1
    → length (or_rest found insts rest) ≤ 1
unfolding or_rest
length-or_rest none insts rest h = h
length-or_rest (some name) insts rest h = elim (Bool-cases (free_for name insts)) [
  | inl e ↦ rw e (ground arith)
  | inr e ↦ rw e h
]

only_one-IsOk : (message : Text) (us : List Text) → length us ≤ 1 → IsOk (only_one message us)
unfolding only_one
only_one-IsOk message [] h = tt
only_one-IsOk message (u ∷ []) h = tt
only_one-IsOk message (u ∷ v ∷ us) h = absurd (ground arith)

or_next-IsOk : (a b : CoreResult (Option Text)) → IsOk a → IsOk b → IsOk (or_next a b)
unfolding or_next
or_next-IsOk (err e) b h k = h
or_next-IsOk (ok none) b h k = k
or_next-IsOk (ok (some name)) b h k = tt

or_none-IsOk {ℓ} :
    {A : Type ℓ} (o : Option A) (next : A → CoreResult (Option Text))
    → ((a : A) → IsOk (next a))
    → IsOk (or_none o next)
or_none-IsOk none next h = tt
or_none-IsOk (some a) next h = h a

module _ (codec : JsonCodec) where
  length-free_users :
      (field : Text) (insts : List ChildInstance) (branches : List FlowInstance)
      → length (free_users codec field insts branches) ≤ 1
  unfolding free_users
  length-free_users field insts [] = ground arith
  length-free_users field insts (b ∷ bs) =
      length-or_rest (payload_field_as_key codec b.payload field) insts _
        (length-free_users field insts bs)

  length-matching_users :
      (field expected name_field : Text) (insts : List ChildInstance) (branches : List FlowInstance)
      → length (matching_users codec field expected name_field insts branches) ≤ 1
  unfolding matching_users
  length-matching_users field expected name_field insts [] = ground arith
  length-matching_users field expected name_field insts (b ∷ bs) =
      let ih = length-matching_users field expected name_field insts bs in
      elim (Bool-cases (has_key codec field expected b)) [
        | inl e ↦ rw e (length-or_rest (payload_field_as_key codec b.payload name_field) insts _ ih)
        | inr e ↦ rw e ih
      ]

  users_of_branches-IsOk :
      (source : ServiceUserSource) (insts : List ChildInstance) (ctx : Option ServiceBranchContext)
      (facet : Text) (branches : List FlowInstance)
      → IsOk (users_of_branches codec source insts ctx facet branches)
  unfolding users_of_branches
  users_of_branches-IsOk source insts ctx facet branches =
      let plain = only_one-IsOk facet _ (length-free_users source.username_field insts branches) in
      elim source.match_branch_key
        as (λ o. IsOk (elim o [
          | none ↦ only_one facet (free_users codec source.username_field insts branches)
          | some field ↦ or_none (branch_key codec ctx) (λ expected.
              only_one facet
                (matching_users codec field expected source.username_field insts branches))
        ])) [
          | none ↦ plain
          | some field ↦ or_none-IsOk (branch_key codec ctx) _ (λ expected.
              only_one-IsOk facet _
                (length-matching_users field expected source.username_field insts branches))
        ]

  users_of_facet-IsOk :
      (source : ServiceUserSource) (insts : List ChildInstance) (ctx : Option ServiceBranchContext)
      (facets : Facets)
      → IsOk (users_of_facet codec source insts ctx facets)
  unfolding users_of_facet
  users_of_facet-IsOk source insts ctx facets = or_none-IsOk source.facet _ (λ facet.
      or_none-IsOk (Map.get facet facets) _ (users_of_branches-IsOk source insts ctx facet))

  source_user-IsOk :
      (service : Service) (ctx : Option ServiceBranchContext) (facets : Option Facets)
      → IsOk (source_user codec service ctx facets)
  unfolding source_user resolve_user_from_source
  source_user-IsOk service ctx facets = or_none-IsOk service.metadata.user_source _ (λ source.
      or_none-IsOk facets _ (λ sm.
        or_next-IsOk (ok (branch_user codec source ctx)) _ tt
          (users_of_facet-IsOk source service.instances ctx sm)))

  session_user-IsOk :
      (service : Service) (facets : Option Facets) → IsOk (session_user codec service facets)
  unfolding session_user
  session_user-IsOk service facets = or_none-IsOk facets _ (λ sm.
      or_none-IsOk (Map.get (codes "rind:user_session") sm) _ (λ sessions.
        only_one-IsOk service.metadata.name _
          (length-free_users (codes "username") service.instances sessions)))

  space_user-IsOk :
      (scopes : ScopeStore) (service : Service) (ctx : Option ServiceBranchContext)
      (facets : Option Facets) (scope : Option Text) (space : ServiceSpace)
      → IsOk (space_user codec scopes service ctx facets scope space)
  unfolding space_user
  space_user-IsOk scopes service ctx facets scope system = tt
  space_user-IsOk scopes service ctx facets scope (user_selective name) = tt
  space_user-IsOk scopes service ctx facets scope user =
      or_next-IsOk (ok (Option.bind scope (user_for_scope scopes))) _ tt (
        or_next-IsOk _ _ (source_user-IsOk service ctx facets)
          (or_next-IsOk (ok (branch_key codec ctx)) _ tt (session_user-IsOk service facets)))

  -- resolve_service_user never fails: the errors for several users are not reached.
  pub resolve_service_user-IsOk :
      (scopes : ScopeStore) (service : Service) (ctx : Option ServiceBranchContext)
      (facets : Option Facets) (scope : Option Text)
      → IsOk (resolve_service_user codec scopes service ctx facets scope)
  unfolding resolve_service_user
  resolve_service_user-IsOk scopes service ctx facets scope =
      or_next-IsOk (ok (Option.bind ctx (λ c. c.forced_user))) _ tt
        (space_user-IsOk scopes service ctx facets scope service.metadata.space)
