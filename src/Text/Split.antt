-- ===== src/Text/Split.antt =====
-- The functions of Rust's `str` that take texts apart: `splitn`, `split`, `split_once`, `lines`,
-- `trim`, `starts_with`, `strip_prefix`, `ends_with`.
use rind.Prelude.{
  ℕ, zero, suc, Bool, true, false, List, [], ◌∷◌, ◌++◌, Option, none, some, if◌then◌else◌, nat_beq,
  leb, ◌&&◌, ◌||◌,
}
use rind.Text.{Text}
use mathlib.Core.List.{reverse}

abbrev pub cons_first : ℕ → List Text → List Text
cons_first c [] = (c ∷ []) ∷ []
cons_first c (p ∷ ps) = (c ∷ p) ∷ ps

-- `split(sep)`: the parts between the separators, one at least
unfoldable pub split : ℕ → Text → List Text
split sep [] = [] ∷ []
split sep (c ∷ s) = let rest = split sep s in if nat_beq c sep then [] ∷ rest else cons_first c rest

-- `splitn(n, sep)`: `n` parts at most, the last with all that is left
unfoldable pub splitn : ℕ → ℕ → Text → List Text
splitn zero sep s = []
splitn (suc zero) sep s = s ∷ []
splitn (suc (suc n)) sep [] = [] ∷ []
splitn (suc (suc n)) sep (c ∷ s) =
    let next = [] ∷ splitn (suc n) sep s in
    let same = cons_first c (splitn (suc (suc n)) sep s) in if nat_beq c sep then next else same

-- `split_once(sep)`, at the first separator
unfoldable pub split_once : ℕ → Text → Option (Text × Text)
split_once sep [] = none
split_once sep (c ∷ s) =
    let rest = split_once sep s in
    if nat_beq c sep then some ([], s) else elim rest [ none ↦ none | some p ↦ some (c ∷ p.0, p.1) ]

-- `rsplit_once(sep)`, at the last separator
unfoldable pub rsplit_once : ℕ → Text → Option (Text × Text)
rsplit_once sep [] = none
rsplit_once sep (c ∷ s) = elim (rsplit_once sep s) [
  | none ↦ if nat_beq c sep then some ([], s) else none
  | some p ↦ some (c ∷ p.0, p.1)
]

unfoldable pub starts_with : Text → Text → Bool
starts_with [] s = true
starts_with (c ∷ p) [] = false
starts_with (c ∷ p) (d ∷ s) = let rest = starts_with p s in if nat_beq c d then rest else false

unfoldable pub ends_with : Text → Text → Bool
unfolding starts_with
ends_with p s = starts_with (reverse p) (reverse s)

-- `contains` of a text
unfoldable pub contains : Text → Text → Bool
unfolding starts_with
contains p [] = starts_with p []
contains p (c ∷ s) = let rest = contains p s in if starts_with p (c ∷ s) then true else rest

unfoldable pub strip_prefix : Text → Text → Option Text
strip_prefix [] s = some s
strip_prefix (c ∷ p) [] = none
strip_prefix (c ∷ p) (d ∷ s) = let rest = strip_prefix p s in if nat_beq c d then rest else none

-- `char::is_whitespace`
unfoldable pub is_whitespace : ℕ → Bool
is_whitespace c =
    (leb 9 c && leb c 13)
    || nat_beq c 32
    || nat_beq c 0x85
    || nat_beq c 0xa0
    || nat_beq c 0x1680
    || (leb 0x2000 c && leb c 0x200a)
    || nat_beq c 0x2028
    || nat_beq c 0x2029
    || nat_beq c 0x202f
    || nat_beq c 0x205f
    || nat_beq c 0x3000

unfoldable pub trim_start : Text → Text
unfolding is_whitespace
trim_start [] = []
trim_start (c ∷ s) = let rest = trim_start s in if is_whitespace c then rest else c ∷ s

unfoldable pub trim : Text → Text
unfolding trim_start
trim s = reverse (trim_start (reverse (trim_start s)))

abbrev pub strip_return : Text → Text
strip_return [] = []
strip_return (c ∷ []) = if nat_beq c 13 then [] else c ∷ []
strip_return (c ∷ d ∷ s) = c ∷ strip_return (d ∷ s)

abbrev pub lines_of : List Text → List Text
lines_of [] = []
lines_of ([] ∷ []) = []
lines_of ((c ∷ s) ∷ []) = (c ∷ s) ∷ []
lines_of (p ∷ q ∷ ps) = strip_return p ∷ lines_of (q ∷ ps)

-- `lines()`: a line ends at a line feed or a carriage return and a line feed
unfoldable pub lines : Text → List Text
unfolding split
lines s = lines_of (split 10 s)

-- the parts with the separator between them
abbrev pub intercalate : ℕ → List Text → Text
intercalate sep [] = []
intercalate sep (p ∷ []) = p
intercalate sep (p ∷ q ∷ ps) = p ++ sep ∷ intercalate sep (q ∷ ps)
