-- ===== src/Services/Accounts/First.antt =====
-- The user of a service that has no instance yet: the loops over the facets find none, since each
-- asks that some instance runs as another user.
use rind.Prelude.{◌≡◌, refl, ap, ◌∙◌, Option, none, some, List, [], ◌∷◌}
use rind.Text.{Text, codes, text_eq}
use rind.Map
use rind.Payload.{JsonCodec}
use rind.Matching.{FlowInstance}
use rind.Facets.{Facets}
use rind.Scopes.{ScopeStore, user_for_scope}
use rind.Error.{CoreResult, ok}
use rind.Services.{Service, ServiceUserSource, user}
use mathlib.Core.Option
use rind.Services.Branching.{payload_field_as_key}
use rind.Services.Accounts.{
  or_rest, free_users, matching_users, free_for, only_one, users_of_branches, users_of_facet,
  resolve_user_from_source, session_user, or_next, or_none, source_user, space_user,
  resolve_service_user, branch_user,
}

or_rest_first : (found : Option Text) (rest : List Text) → rest ≡ [] → or_rest found [] rest ≡ []
unfolding or_rest free_for
or_rest_first none rest h = h
or_rest_first (some name) rest h = h

or_none_first {ℓ} :
    {A : Type ℓ} (o : Option A) (next : A → CoreResult (Option Text))
    → ((a : A) → next a ≡ ok none)
    → or_none o next ≡ ok none
or_none_first none next h = refl
or_none_first (some a) next h = h a

or_next_last :
    (o : Option Text) (next : CoreResult (Option Text))
    → next ≡ ok none
    → or_next (ok o) next ≡ ok o
unfolding or_next
or_next_last none next h = h
or_next_last (some name) next h = refl

blank_next :
    (next : CoreResult (Option Text))
    → next ≡ ok none
    → or_next (ok none) (or_next (ok none) next) ≡ ok none
unfolding or_next
blank_next next h = h

module _ (codec : JsonCodec) where
  no_free_users :
      (field : Text) (branches : List FlowInstance) → free_users codec field [] branches ≡ []
  unfolding free_users
  no_free_users field [] = refl
  no_free_users field (b ∷ bs) =
      or_rest_first (payload_field_as_key codec b.payload field) _ (no_free_users field bs)

  session_user_first :
      (service : Service) (facets : Option Facets)
      → service.instances ≡ []
      → session_user codec service facets ≡ ok none
  unfolding session_user only_one
  session_user_first service none h = refl
  session_user_first service (some sm) h =
      or_none_first (Map.get (codes "rind:user_session") sm) _
        (λ sessions. rw (h, no_free_users (codes "username") sessions) refl)

  users_of_facet_first :
      (source : ServiceUserSource) (facets : Facets)
      → users_of_facet codec source [] none facets ≡ ok none
  unfolding users_of_facet users_of_branches only_one Option.bind
  users_of_facet_first source facets = or_none_first source.facet _ (λ facet.
      or_none_first (Map.get facet facets) _ (λ branches.
        elim source.match_branch_key
          as (λ o.
            ◌≡◌ {A = CoreResult (Option Text)}
              (elim o [
                | none ↦ only_one facet (free_users codec source.username_field [] branches)
                | some field ↦ or_none {A = Text} none (λ expected.
                    only_one facet
                      (matching_users codec field expected source.username_field [] branches))
              ])
              (ok none)) [
                | none ↦ rw (no_free_users source.username_field branches) refl
                | some field ↦ refl
              ]))

  source_user_first :
      (service : Service) (facets : Option Facets)
      → service.instances ≡ []
      → source_user codec service none facets ≡ ok none
  unfolding source_user resolve_user_from_source branch_user or_next Option.bind
  source_user_first service facets h =
      or_none_first service.metadata.user_source _
        (λ source. or_none_first facets _ (λ sm. rw (h, users_of_facet_first source sm) refl))

  space_user_first :
      (scopes : ScopeStore) (service : Service) (facets : Option Facets) (scope : Option Text)
      → service.instances ≡ []
      → space_user codec scopes service none facets scope user
        ≡ ok (Option.bind scope (user_for_scope scopes))
  unfolding space_user Option.bind
  space_user_first scopes service facets scope h =
      or_next_last _ (or_next (source_user codec service none facets) _) (
        ap (λ r. or_next r (or_next (ok none) (session_user codec service facets)))
          (source_user_first service facets h)
        ∙ blank_next _ (session_user_first service facets h))

  -- For a userspace service without instances and without a branch, the user is that of the scope
  -- and, where it has none, no user: neither user-source nor a session gives one.
  pub resolve_service_user_first :
      (scopes : ScopeStore) (service : Service) (facets : Option Facets) (scope : Option Text)
      → service.instances ≡ []
      → service.metadata.space ≡ user
      → resolve_service_user codec scopes service none facets scope
        ≡ ok (Option.bind scope (user_for_scope scopes))
  unfolding resolve_service_user or_next Option.bind
  resolve_service_user_first scopes service facets scope h u =
      ap (space_user codec scopes service none facets scope) u
      ∙ space_user_first scopes service facets scope h
