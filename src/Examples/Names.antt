-- ===== src/Examples/Names.antt =====
-- The theorem about the scoped names of crates/core/src/utils.rs at a name with a scope.
use rind.Prelude.{◌≡◌, refl, some}
use rind.Set
use rind.Text.{codes}
use rind.ScopedNames.{parse_scoped_name, compose_scoped_name}
use rind.ScopedNames.Roundtrip.{Lacks, scope_of, parse_scoped_name-compose_scoped_name}

no_colon : Lacks b':' (codes "rind")
unfolding Set.contains
no_colon = refl

no_colon_child : Lacks b':' (codes "active")
unfolding Set.contains
no_colon_child = refl

no_at : Lacks b'@' (codes "rind")
unfolding Set.contains
no_at = refl

no_at_child : Lacks b'@' (codes "active")
unfolding Set.contains
no_at_child = refl

parse_scoped_name-compose_scoped_name_example :
    parse_scoped_name (compose_scoped_name (codes "rind") (codes "active") (some (codes "alice")))
    ≡ record {
      parent = codes "rind";
      child = codes "active";
      scope = scope_of (some (codes "alice"));
    }
parse_scoped_name-compose_scoped_name_example =
    parse_scoped_name-compose_scoped_name (codes "rind") (codes "active") (some (codes "alice"))
      no_colon no_colon_child no_at no_at_child
