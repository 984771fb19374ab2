-- ===== src/Examples/Isolation.antt =====
-- The theorems about the isolation of a service in crates/services/src/services.rs, for a scope that
-- asks for a pid namespace.
use rind.Prelude.{◌≡◌, refl, true, false, none, some, [], ◌∷◌}
use rind.Map
use rind.Text.{codes, text_eq}
use rind.Text.Split.{split, trim, trim_start, is_whitespace}
use rind.Scopes.{ScopeStore, attrs_for_scope}
use rind.Error.{ok}
use rind.Services.{ServiceNamespaces, ServiceMetadata, ServiceIsolation, RestartPolicy}
use rind.Services.Isolation as Isolation
use rind.Services.Isolation.{
  isolation_for, scope_namespaces, scope_cgroup, scope_capabilities, scope_seccomp, merge_cgroup,
  merge_namespaces, validate_service_inline_namespaces, reject_inline, invalid_features,
  reject_features, namespaces_of, namespaces_is_empty, attr_bool, parse_bool,
}
use rind.Services.Isolation.Merged.{ScopeOnly, asks, isolation_for-scope_only}
use rind.Services.Isolation.Paths.{
  default_path, below_root, sanitize_cgroup_component, split-default_path,
}
use rind.Examples.Services.{described}
use mathlib.Core.Option

abbrev store : ScopeStore
store = record {
  scopes =
      (
        codes "s",
        record {
          name = codes "s";
          attributes = (codes "ns.pid", codes "yes") ∷ (codes "cgroup.path", codes "s") ∷ [];
          lifetime_state = none;
        },
      )
      ∷ [];
  state_to_scope = [];
  pending_scopes = [];
}

abbrev networked : ServiceNamespaces
networked = record {
  mount = false;
  uts = false;
  ipc = false;
  net = true;
  pid = false;
  user = false;
  cgroup = false;
  mount_private = false;
  rootfs = none;
  hostname = none;
  persist = false;
  init = false;
}

abbrev service : ServiceMetadata
service = record (described (RestartPolicy.always true)) { namespaces = some networked }

abbrev isolated : ServiceIsolation
isolated = record {
  scope = some (codes "s");
  cgroup = merge_cgroup (scope_cgroup store (some (codes "s"))) none;
  namespaces = merge_namespaces (scope_namespaces store (some (codes "s"))) (some networked);
  capabilities = scope_capabilities store (some (codes "s"));
  seccomp = scope_seccomp store (some (codes "s"));
}

service_isolated : isolation_for store service (some (codes "s")) ≡ ok isolated
unfolding isolation_for validate_service_inline_namespaces reject_inline invalid_features
    reject_features
service_isolated = refl

isolation_for-scope_only_example :
    asks ScopeOnly.pid isolated.namespaces
    ≡ asks ScopeOnly.pid (scope_namespaces store (some (codes "s")))
isolation_for-scope_only_example =
    isolation_for-scope_only store service (some (codes "s")) isolated service_isolated
      ScopeOnly.pid

pid_asked : asks ScopeOnly.pid (scope_namespaces store (some (codes "s"))) ≡ true
unfolding scope_namespaces namespaces_of namespaces_is_empty attrs_for_scope Map.get Isolation.attr
    attr_bool parse_bool trim trim_start is_whitespace Option.bind
pid_asked = refl

split-default_path_example :
    split b'/' (default_path (codes "a/b") (some (codes "..")) (some (codes "ada")))
    ≡ below_root (
        sanitize_cgroup_component (codes "a/b")
        ∷ sanitize_cgroup_component (codes "..")
        ∷ sanitize_cgroup_component (codes "ada")
        ∷ [])
split-default_path_example =
    split-default_path (codes "a/b") (codes "..") (codes "ada") (λ e. cc) (λ e. cc) (λ e. cc)
