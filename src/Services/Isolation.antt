-- ===== src/Services/Isolation.antt =====
-- What a service's processes are confined to: `isolation_for` of crates/services/src/services.rs,
-- with the attributes of its scope, and the path of its control group.
pub mod Merged
pub mod Paths
use rind.Prelude.{
  ℕ, ◌+◌, Bool, true, false, not, ◌&&◌, ◌||◌, Option, none, some, List, [], ◌∷◌, ◌++◌, map, filter,
  if◌then◌else◌, leb, nat_beq, is_empty, ◌==◌,
}
use rind.Map
use rind.Map.{Map}
use rind.Text.{Text, codes, text_eq}
use rind.Text.Split.{split, trim, starts_with, ends_with, intercalate}
use rind.Scopes.{ScopeStore, attrs_for_scope}
use rind.Error.{CoreError, CoreResult, ok, err, invalid_state, ◌>>=◌}
use rind.Services.{
  ServiceCgroup, ServiceNamespaces, CapabilityPolicy, SeccompPolicy, ServiceIsolation,
  ServiceMetadata, ServiceBranchContext,
}
use mathlib.Core.Option

abbrev pub is_none {ℓ} : {A : Type ℓ} → Option A → Bool
is_none none = true
is_none (some a) = false

abbrev pub or {ℓ} : {A : Type ℓ} → Option A → Option A → Option A
or none b = b
or (some a) b = some a

abbrev pub or_false : Option Bool → Bool
or_false none = false
or_false (some b) = b

unfoldable pub cgroup_is_empty : ServiceCgroup → Bool
cgroup_is_empty c =
    is_none c.path && is_none c.memory_max && is_none c.cpu_max && is_none c.pids_max

unfoldable pub namespaces_is_empty : ServiceNamespaces → Bool
namespaces_is_empty n =
    not n.mount
    && not n.uts
    && not n.ipc
    && not n.net
    && not n.pid
    && not n.user
    && not n.cgroup
    && not n.mount_private
    && is_none n.rootfs
    && is_none n.hostname
    && not n.persist
    && not n.init

unfoldable pub capabilities_is_empty : CapabilityPolicy → Bool
capabilities_is_empty c = is_empty c.drop && is_empty c.keep

unfoldable pub seccomp_is_empty : SeccompPolicy → Bool
seccomp_is_empty s = is_none s.profile && is_none s.path

unfoldable pub supervised : Option ServiceNamespaces → Bool
supervised none = false
supervised (some ns) = ns.pid || ns.user || ns.persist || ns.init

unfoldable pub needs_namespace_supervisor : ServiceIsolation → Bool
unfolding supervised
needs_namespace_supervisor i =
    supervised i.namespaces || not (is_none i.capabilities) || not (is_none i.seccomp)

-- the first of the keys that has an attribute
unfoldable pub attr : Map Text Text → List Text → Option Text
attr attrs [] = none
attr attrs (key ∷ keys) = elim (Map.get key attrs) [ none ↦ attr attrs keys | some v ↦ some v ]

-- `to_ascii_lowercase` of a character
abbrev pub lower : ℕ → ℕ
lower c = if leb 65 c && leb c 90 then c + 32 else c

unfoldable pub parse_bool : Text → Option Bool
parse_bool value =
    let s = map lower (trim value) in
    if s == codes "1" || s == codes "true" || s == codes "yes" || s == codes "on"
    then some true
    else if s == codes "0" || s == codes "false" || s == codes "no" || s == codes "off"
    then some false
    else none

unfoldable pub attr_bool : Map Text Text → List Text → Option Bool
unfolding attr parse_bool
attr_bool attrs keys = Option.bind (attr attrs keys) parse_bool

abbrev pub scope_attrs : ScopeStore → Option Text → Option (Map Text Text)
scope_attrs scopes scope = Option.bind scope (attrs_for_scope scopes)

-- `(!x.is_empty()).then_some(x)`
abbrev pub unless_empty {ℓ} : {A : Type ℓ} → (A → Bool) → A → Option A
unless_empty empty x = if empty x then none else some x

unfoldable pub cgroup_of : Map Text Text → ServiceCgroup
unfolding attr
cgroup_of attrs = record {
  path = attr attrs (codes "cgroup.path" ∷ []);
  memory_max = attr attrs (codes "cgroup.memory-max" ∷ codes "cgroup.memory_max" ∷ []);
  cpu_max = attr attrs (codes "cgroup.cpu-max" ∷ codes "cgroup.cpu_max" ∷ []);
  pids_max = attr attrs (codes "cgroup.pids-max" ∷ codes "cgroup.pids_max" ∷ []);
}

unfoldable pub scope_cgroup : ScopeStore → Option Text → Option ServiceCgroup
unfolding cgroup_of cgroup_is_empty
scope_cgroup scopes scope =
    Option.bind (scope_attrs scopes scope) (λ attrs. unless_empty cgroup_is_empty (cgroup_of attrs))

unfoldable pub namespaces_of : Map Text Text → ServiceNamespaces
unfolding attr_bool attr
namespaces_of attrs =
    let flag : List Text → Bool = λ keys. or_false (attr_bool attrs keys) in
    record {
      mount = flag (codes "namespace.mount" ∷ codes "namespaces.mount" ∷ codes "ns.mount" ∷ []);
      uts = flag (codes "namespace.uts" ∷ codes "namespaces.uts" ∷ codes "ns.uts" ∷ []);
      ipc = flag (codes "namespace.ipc" ∷ codes "namespaces.ipc" ∷ codes "ns.ipc" ∷ []);
      net = flag (codes "namespace.net" ∷ codes "namespaces.net" ∷ codes "ns.net" ∷ []);
      pid = flag (codes "namespace.pid" ∷ codes "namespaces.pid" ∷ codes "ns.pid" ∷ []);
      user = flag (codes "namespace.user" ∷ codes "namespaces.user" ∷ codes "ns.user" ∷ []);
      cgroup = flag (codes "namespace.cgroup" ∷ codes "namespaces.cgroup" ∷ codes "ns.cgroup" ∷ []);
      mount_private = flag (
          codes "namespace.mount-private"
          ∷ codes "namespace.mount_private"
          ∷ codes "namespaces.mount-private"
          ∷ codes "namespaces.mount_private"
          ∷ codes "ns.mount-private"
          ∷ codes "ns.mount_private"
          ∷ []);
      rootfs =
          attr attrs
            (codes "namespace.rootfs" ∷ codes "namespaces.rootfs" ∷ codes "ns.rootfs" ∷ []);
      hostname =
          attr attrs
            (codes "namespace.hostname" ∷ codes "namespaces.hostname" ∷ codes "ns.hostname" ∷ []);
      persist =
          flag (codes "namespace.persist" ∷ codes "namespaces.persist" ∷ codes "ns.persist" ∷ []);
      init = flag (codes "namespace.init" ∷ codes "namespaces.init" ∷ codes "ns.init" ∷ []);
    }

unfoldable pub scope_namespaces : ScopeStore → Option Text → Option ServiceNamespaces
unfolding namespaces_of namespaces_is_empty
scope_namespaces scopes scope =
    Option.bind (scope_attrs scopes scope)
      (λ attrs. unless_empty namespaces_is_empty (namespaces_of attrs))

unfoldable pub split_attr_list : Text → List Text
split_attr_list value = filter (λ v. not (is_empty v)) (map trim (split b',' value))

abbrev listed : Option Text → List Text
listed none = []
listed (some value) = split_attr_list value

unfoldable pub scope_capabilities : ScopeStore → Option Text → Option CapabilityPolicy
unfolding attr split_attr_list capabilities_is_empty
scope_capabilities scopes scope = Option.bind (scope_attrs scopes scope) (λ attrs.
    unless_empty capabilities_is_empty (record {
      drop = listed (
          attr attrs
            (codes "capabilities.drop" ∷ codes "capability.drop" ∷ codes "caps.drop" ∷ []));
      keep = listed (
          attr attrs
            (codes "capabilities.keep" ∷ codes "capability.keep" ∷ codes "caps.keep" ∷ []));
    }))

unfoldable pub scope_seccomp : ScopeStore → Option Text → Option SeccompPolicy
unfolding attr seccomp_is_empty
scope_seccomp scopes scope = Option.bind (scope_attrs scopes scope) (λ attrs.
    unless_empty seccomp_is_empty (record {
      profile = attr attrs (codes "seccomp.profile" ∷ []);
      path = attr attrs (codes "seccomp.path" ∷ []);
    }))

unfoldable pub merge_cgroup : Option ServiceCgroup → Option ServiceCgroup → Option ServiceCgroup
merge_cgroup none service = service
merge_cgroup (some scope) none = some scope
merge_cgroup (some scope) (some service) = some (record {
  path = or service.path scope.path;
  memory_max = or service.memory_max scope.memory_max;
  cpu_max = or service.cpu_max scope.cpu_max;
  pids_max = or service.pids_max scope.pids_max;
})

unfoldable pub merge_namespaces :
    Option ServiceNamespaces → Option ServiceNamespaces → Option ServiceNamespaces
merge_namespaces none service = service
merge_namespaces (some scope) none = some scope
merge_namespaces (some scope) (some service) = some (record {
  mount = scope.mount || service.mount;
  uts = scope.uts || service.uts;
  ipc = scope.ipc || service.ipc;
  net = scope.net || service.net;
  pid = scope.pid || service.pid;
  user = scope.user || service.user;
  cgroup = scope.cgroup || service.cgroup;
  mount_private = scope.mount_private || service.mount_private;
  rootfs = or service.rootfs scope.rootfs;
  hostname = or service.hostname scope.hostname;
  persist = scope.persist || service.persist;
  init = scope.init || service.init;
})

-- the names that `validate_service_inline_namespaces` collects
unfoldable pub invalid_features : ServiceNamespaces → List Text
invalid_features ns =
    (if ns.pid then codes "pid" ∷ [] else [])
    ++ (if ns.user then codes "user" ∷ [] else [])
    ++ (if ns.persist then codes "persist" ∷ [] else [])
    ++ (if ns.init then codes "init" ∷ [] else [])

-- the text that names the service and the features, in a wording of its own
abbrev inline_error : Text → List Text → CoreError
inline_error name invalid = invalid_state (intercalate b',' (name ∷ invalid))

unfoldable pub reject_features : Text → List Text → CoreResult (Unit {0})
reject_features name [] = ok tt
reject_features name (f ∷ fs) = err (inline_error name (f ∷ fs))

unfoldable pub reject_inline : Text → Option ServiceNamespaces → CoreResult (Unit {0})
unfolding invalid_features reject_features
reject_inline name none = ok tt
reject_inline name (some ns) = reject_features name (invalid_features ns)

unfoldable pub validate_service_inline_namespaces : ServiceMetadata → CoreResult (Unit {0})
unfolding reject_inline
validate_service_inline_namespaces m = reject_inline m.name m.namespaces

unfoldable pub isolation_for :
    ScopeStore → ServiceMetadata → Option Text → CoreResult ServiceIsolation
unfolding validate_service_inline_namespaces
isolation_for scopes service scope = validate_service_inline_namespaces service >>= (λ _.
    ok (record {
      scope = scope;
      cgroup = merge_cgroup (scope_cgroup scopes scope) service.cgroup;
      namespaces = merge_namespaces (scope_namespaces scopes scope) service.namespaces;
      capabilities = scope_capabilities scopes scope;
      seccomp = scope_seccomp scopes scope;
    }))
