-- ===== src/ScopedNames/Roundtrip.antt =====
-- The round trip of the scoped names of crates/core/src/utils.rs.
use rind.Prelude.{
  ℕ, ◌≡◌, refl, false, Option, none, some, [], ◌∷◌, ◌++◌, is_empty, if◌then◌else◌, ==_iff, nat_eq,
  arith,
}
use rind.Set
use rind.Text.{Text, codes, text_eq}
use rind.Text.Split.{split_once, rsplit_once}
use rind.ScopedNames.{
  scoped_parts, last_part, parts, parse_scoped_name, joined, compose_scoped_name,
}

-- The text has no such character.
abbrev pub Lacks : ℕ → Text → Type 0
Lacks c s = Set.contains c s ≡ false

split_once-first :
    (sep : ℕ) (a b : Text) → Lacks sep a → split_once sep (a ++ sep ∷ b) ≡ some (a, b)
unfolding split_once Set.contains
split_once-first sep [] b h = ground arith
split_once-first sep (c ∷ a) b h = ground (arith, split_once-first sep a b)

split_once-none : (sep : ℕ) (a : Text) → Lacks sep a → split_once sep a ≡ none
unfolding split_once Set.contains
split_once-none sep [] h = refl
split_once-none sep (c ∷ a) h = ground (arith, split_once-none sep a)

rsplit_once-none : (sep : ℕ) (a : Text) → Lacks sep a → rsplit_once sep a ≡ none
unfolding rsplit_once Set.contains
rsplit_once-none sep [] h = refl
rsplit_once-none sep (c ∷ a) h = ground (arith, rsplit_once-none sep a)

rsplit_once-last :
    (sep : ℕ) (a b : Text) → Lacks sep b → rsplit_once sep (a ++ sep ∷ b) ≡ some (a, b)
unfolding rsplit_once
rsplit_once-last sep [] b h = ground (arith, rsplit_once-none sep b)
rsplit_once-last sep (c ∷ a) b h = ground (arith, rsplit_once-last sep a b)

Lacks-append : (c : ℕ) (a b : Text) → Lacks c a → Lacks c b → Lacks c (a ++ b)
unfolding Set.contains
Lacks-append c [] b h k = k
Lacks-append c (d ∷ a) b h k = ground (arith, Lacks-append c a b)

parts-joined :
    (parent child : Text)
    → Lacks b':' parent
    → Lacks b':' child
    → parts (joined parent child) ≡ (parent, child)
unfolding parts last_part
parts-joined parent child h k =
    rw (rsplit_once-last b':' parent child k, rsplit_once-none b':' parent h, parts, last_part) refl

-- the scope that a name composed with it has
unfoldable pub scope_of : Option Text → Text
scope_of none = codes "static"
scope_of (some scope) = if is_empty scope then codes "static" else scope

Lacks-joined :
    (parent child : Text) → Lacks b'@' parent → Lacks b'@' child → Lacks b'@' (joined parent child)
unfolding Set.contains
Lacks-joined parent child h k = Lacks-append b'@' parent (b':' ∷ child) h k

scoped_parts-compose :
    (parent child : Text) (scope : Option Text)
    → Lacks b'@' (joined parent child)
    → scoped_parts (compose_scoped_name parent child scope) ≡ (joined parent child, scope_of scope)
unfolding scoped_parts compose_scoped_name scope_of
scoped_parts-compose parent child none h =
    rw (split_once-none b'@' (joined parent child) h, scoped_parts) refl
scoped_parts-compose parent child (some scope) h = ground (
  arith,
  split_once-none b'@' (joined parent child) h,
  split_once-first b'@' (joined parent child) scope h,
  ==_iff scope (codes "static"),
)

-- Where parent and child have neither a colon nor an at sign, a composed name parses to the same
-- parent and child, and to the scope it was composed with or, for none or an empty one, to
-- "static".
pub parse_scoped_name-compose_scoped_name :
    (parent child : Text) (scope : Option Text)
    → Lacks b':' parent
    → Lacks b':' child
    → Lacks b'@' parent
    → Lacks b'@' child
    → parse_scoped_name (compose_scoped_name parent child scope)
      ≡ record { parent = parent; child = child; scope = scope_of scope }
unfolding parse_scoped_name
parse_scoped_name-compose_scoped_name parent child scope h k l m =
    rw
      (
        scoped_parts-compose parent child scope (Lacks-joined parent child l m),
        parts-joined parent child h k,
        parse_scoped_name,
      )
      refl
