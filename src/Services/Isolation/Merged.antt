-- ===== src/Services/Isolation/Merged.antt =====
-- What a service may set of its isolation itself, and what only its scope may.
use rind.Prelude.{◌≡◌, refl, arith, Bool, false, Option, none, some, List, [], ◌∷◌, ap, sym, ◌∙◌}
use rind.Text.{Text}
use rind.Scopes.{ScopeStore}
use rind.Error.{CoreResult, ok, err, >>=-eq-ok}
use rind.Services.{ServiceNamespaces, ServiceIsolation, ServiceMetadata}
use rind.Services.Isolation.{
  scope_namespaces, merge_namespaces, invalid_features, reject_features, reject_inline,
  validate_service_inline_namespaces, isolation_for,
}

-- the four features that only a scope's attributes may ask for
pub data ScopeOnly : Type 0 where
  pid user persist init : ScopeOnly

abbrev pub feature : ScopeOnly → ServiceNamespaces → Bool
feature pid ns = ns.pid
feature user ns = ns.user
feature persist ns = ns.persist
feature init ns = ns.init

abbrev pub asks : ScopeOnly → Option ServiceNamespaces → Bool
asks f none = false
asks f (some ns) = feature f ns

no_features :
    (ns : ServiceNamespaces) → invalid_features ns ≡ [] → (f : ScopeOnly) → feature f ns ≡ false
unfolding invalid_features
no_features ns h pid = ground arith
no_features ns h user = ground arith
no_features ns h persist = ground arith
no_features ns h init = ground arith

accepted : (name : Text) (fs : List Text) → reject_features name fs ≡ ok tt → fs ≡ []
unfolding reject_features
accepted name [] h = refl
accepted name (f ∷ fs) h = cc

inline_of :
    (name : Text) (ns : Option ServiceNamespaces)
    → reject_inline name ns ≡ ok tt
    → (f : ScopeOnly) → asks f ns ≡ false
unfolding reject_inline
inline_of name none h f = refl
inline_of name (some ns) h f = no_features ns (accepted name (invalid_features ns) h) f

abbrev namespaces_in : CoreResult ServiceIsolation → Option ServiceNamespaces
namespaces_in (err e) = none
namespaces_in (ok iso) = iso.namespaces

merged :
    (scope service : Option ServiceNamespaces) (f : ScopeOnly)
    → asks f service ≡ false
    → asks f (merge_namespaces scope service) ≡ asks f scope
unfolding merge_namespaces
merged none service f h = h
merged (some ns) none f h = refl
merged (some a) (some b) pid h = ground arith
merged (some a) (some b) user h = ground arith
merged (some a) (some b) persist h = ground arith
merged (some a) (some b) init h = ground arith

-- Where isolation_for succeeds, the namespaces ask for pid, user, persist and init exactly where
-- the attributes of the scope do.
pub isolation_for-scope_only :
    (scopes : ScopeStore) (service : ServiceMetadata) (scope : Option Text) (iso : ServiceIsolation)
    → isolation_for scopes service scope ≡ ok iso
    → (f : ScopeOnly) → asks f iso.namespaces ≡ asks f (scope_namespaces scopes scope)
unfolding isolation_for validate_service_inline_namespaces
isolation_for-scope_only scopes service scope iso h f =
    let (u, valid, made) = >>=-eq-ok (validate_service_inline_namespaces service) _ h in
    sym (ap (λ r. asks f (namespaces_in r)) made)
    ∙ merged (scope_namespaces scopes scope) service.namespaces f
        (inline_of service.name service.namespaces valid f)
