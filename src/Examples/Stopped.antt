-- ===== src/Examples/Stopped.antt =====
-- The theorem about `stop_for_scope` of crates/services/src/services.rs: the second of three
-- declared services has no instance.
use rind.Prelude.{◌≡◌, refl, true, false, none, [], ◌∷◌}
use rind.Map
use rind.Text.{codes, text_eq}
use rind.Text.Split.{contains, starts_with, split_once, rsplit_once}
use rind.ScopedNames.{parse_scoped_name, scoped_parts, parts, last_part}
use rind.Error.{ok, err, missing_instances}
use rind.Registry.{MetadataRegistry, resolve_metadata_key, named_key}
use rind.Registry.Instances.{InstanceMap, as_one, cast_one, resolved_metadata_and_full_name, scoped}
use rind.Services.{ServiceMetadata, Service, always}
use rind.Services.Stops.{stop_items, stop_declared}
use rind.Services.Stops.Left.{stopped, stop_items-missing}
use rind.Examples.Services.{blank, service}
use rind.Examples.Triggered.{plain}

abbrev declared : MetadataRegistry ServiceMetadata
declared = record { metadata = (codes "s", []) ∷ []; index = none }

abbrev live : InstanceMap Service
live =
    (codes "g:a@s", service (always true) ∷ []) ∷ (codes "g:c@s", service (always true) ∷ []) ∷ []

a_stops : (stopped plain declared 1 false (codes "s") (codes "g:a" ∷ []) live blank).0 ≡ ok tt
unfolding stop_items stop_declared as_one cast_one resolved_metadata_and_full_name scoped
    resolve_metadata_key named_key parse_scoped_name scoped_parts parts last_part contains
    starts_with split_once rsplit_once Map.get Map.get_or Map.contains_key
a_stops = refl

b_is_missing :
    as_one plain declared
      (codes "s")
      (codes "g:b")
      (stopped plain declared 1 false (codes "s") (codes "g:a" ∷ []) live blank).1
    ≡ err (missing_instances (codes "g:b@s"))
unfolding stop_items stop_declared as_one cast_one resolved_metadata_and_full_name scoped
    resolve_metadata_key named_key parse_scoped_name scoped_parts parts last_part contains
    starts_with split_once rsplit_once Map.get Map.get_or Map.contains_key Map.insert
b_is_missing = refl

stop_items-missing_example :
    stopped plain declared 1 false
      (codes "s")
      (codes "g:a" ∷ codes "g:b" ∷ codes "g:c" ∷ [])
      live
      blank
    ≡ (
      err (missing_instances (codes "g:b@s")),
      (stopped plain declared 1 false (codes "s") (codes "g:a" ∷ []) live blank).1,
      (stopped plain declared 1 false (codes "s") (codes "g:a" ∷ []) live blank).2,
      (stopped plain declared 1 false (codes "s") (codes "g:a" ∷ []) live blank).3,
    )
stop_items-missing_example =
    stop_items-missing plain declared 1 false (codes "s") (codes "g:a" ∷ []) (codes "g:b")
      (codes "g:c" ∷ []) live blank (missing_instances (codes "g:b@s")) a_stops b_is_missing
