-- ===== src/ScopedNames.antt =====
-- The scoped names of crates/core/src/utils.rs, `parent:child@scope`: the arm `res` of `rslvns!`,
-- `parse_scoped_name`, `compose_scoped_name` and `normalize_uaddr`.
pub mod Roundtrip
use rind.Prelude.{
  ℕ, Bool, true, false, Option, none, some, List, [], ◌∷◌, ◌++◌, is_empty, if◌then◌else◌, ◌||◌, Eq,
  ◌==◌,
}
use rind.Text.{Text, codes, text_eq}
use rind.Text.Split.{split_once, rsplit_once, strip_prefix, starts_with}

pub record ScopedName : Type 0 where
  pub parent : Text
  pub child : Text
  pub scope : Text

-- `splitn(2, '@')`: the name, and the scope or "static"
unfoldable pub scoped_parts : Text → Text × Text
scoped_parts path = elim (split_once b'@' path) [ none ↦ (path, codes "static") | some p ↦ p ]

-- the arm `snorm`: the name before the first at sign
unfoldable pub scope_free : Text → Text
unfolding scoped_parts
scope_free path = (scoped_parts path).0

-- the part behind the last colon, or all
unfoldable pub last_part : Text → Text
last_part name = elim (rsplit_once b':' name) [ none ↦ name | some p ↦ p.1 ]

-- `rsplitn(3, ':')`: the last part but one, and the last
unfoldable pub parts : Text → Text × Text
unfolding last_part
parts name = elim (rsplit_once b':' name) [ none ↦ ([], name) | some p ↦ (last_part p.0, p.1) ]

unfoldable pub parse_scoped_name : Text → ScopedName
unfolding scoped_parts parts
parse_scoped_name path = record {
  parent = (parts (scoped_parts path).0).0;
  child = (parts (scoped_parts path).0).1;
  scope = (scoped_parts path).1;
}

-- `format!("{parent}:{child}")`
abbrev pub joined : Text → Text → Text
joined parent child = parent ++ b':' ∷ child

unfoldable pub compose_scoped_name : Text → Text → Option Text → Text
compose_scoped_name parent child none = joined parent child
compose_scoped_name parent child (some scope) =
    if is_empty scope || scope == codes "static"
    then joined parent child
    else joined parent child ++ b'@' ∷ scope

unfoldable pub normalize_uaddr : Text → Text → Text
unfolding starts_with strip_prefix
normalize_uaddr addr prefix =
    if starts_with prefix addr
    then elim (strip_prefix prefix addr) [ none ↦ [] | some rest ↦ rest ]
    else addr
