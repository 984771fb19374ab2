-- ===== src/Examples/ScopeIndex.antt =====
-- The theorems about crates/primitives/src/scopes.rs at a user's scope.
use rind.Prelude.{◌≢◌, Option, some, [], arith}
use rind.Map
use rind.Text.{Text, codes, text_eq}
use rind.Scopes.{empty_store, upsert, remove_scope, scope_for_state}
use rind.Scopes.Index.{IsIndexed, upsert-IsIndexed, remove_scope-IsIndexed}

empty_store-IsIndexed : IsIndexed empty_store
unfolding scope_for_state Map.get
empty_store-IsIndexed state scope e = absurd (ground arith)

abbrev login : Option Text
login = some (codes "rind:user_session")

upsert-IsIndexed_example : IsIndexed (upsert (codes "alice") [] login empty_store)
upsert-IsIndexed_example =
    upsert-IsIndexed (codes "alice") [] login empty_store empty_store-IsIndexed

remove_scope-IsIndexed_example :
    IsIndexed (remove_scope (codes "alice") (upsert (codes "alice") [] login empty_store)).1
remove_scope-IsIndexed_example =
    remove_scope-IsIndexed (codes "alice") (upsert (codes "alice") [] login empty_store)
      (upsert-IsIndexed (codes "alice") [] login empty_store empty_store-IsIndexed)

alice≢bob : codes "alice" ≢ codes "bob"
alice≢bob e = ground (arith, e)
