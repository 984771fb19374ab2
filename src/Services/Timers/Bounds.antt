-- ===== src/Services/Timers/Bounds.antt =====
-- A duration is a number of seconds that a `u64` holds.
use rind.Prelude.{
  ℕ, ◌*◌, ◌%◌, ◌<◌, ◌≡◌, arith, Bool, true, false, Option, none, some, [], ◌∷◌, if◌then◌else◌, leb,
}
use rind.Text.{Text}
use rind.Text.Split.{trim}
use rind.Text.Number.{parse_unsigned, parse_digits-lt}
use rind.Services.Timers.{u64, split_last, seconds_in, with_unit, parse_trimmed, parse_duration}
use mathlib.Core.Option

parse_unsigned-lt :
    (bound : ℕ) (s : Text) (n : ℕ) → 0 < bound → parse_unsigned bound s ≡ some n → n < bound
unfolding parse_unsigned
parse_unsigned-lt bound [] n pos h = cc
parse_unsigned-lt bound (c ∷ []) n pos h = ground arith
parse_unsigned-lt bound (c ∷ d ∷ s) n pos h =
    ground (arith, parse_digits-lt bound 0 (d ∷ s) n pos, parse_digits-lt bound 0 (c ∷ d ∷ s) n pos)

with_unit-lt : (num unit : Option ℕ) (s : Text) (n : ℕ) → with_unit num unit s ≡ some n → n < u64
unfolding with_unit
with_unit-lt none unit s n h = parse_unsigned-lt u64 s n (omega arith) h
with_unit-lt (some num) none s n h = parse_unsigned-lt u64 s n (omega arith) h
with_unit-lt (some num) (some seconds) s n h =
    ground (arith, Option.some-injective (num * seconds % u64) n h)

unless_wide :
    (b : Bool) (o : Option ℕ) (n : ℕ)
    → (o ≡ some n → n < u64)
    → (if b then none else some o) ≡ some (some n)
    → n < u64
unless_wide true o n below h = cc
unless_wide false o n below h = below (Option.some-injective o (some n) h)

trimmed-lt : (s : Text) (n : ℕ) → parse_trimmed s ≡ some (some n) → n < u64
unfolding parse_trimmed
trimmed-lt [] n h = absurd (ground arith)
trimmed-lt (c ∷ s) n h =
    let parts = split_last c s in
    unless_wide (leb 128 parts.1)
      (with_unit (parse_unsigned u64 parts.0) (seconds_in parts.1) (c ∷ s)) n
      (with_unit-lt (parse_unsigned u64 parts.0) (seconds_in parts.1) (c ∷ s) n) h

-- A parsed duration is below 2^64.
parse_duration-lt : (s : Text) (n : ℕ) → parse_duration s ≡ some (some n) → n < u64
unfolding parse_duration
parse_duration-lt s n h = trimmed-lt (trim s) n h
