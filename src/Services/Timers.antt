-- ===== src/Services/Timers.antt =====
-- crates/services/src/timers.rs: `parse_duration` and the timers that follow a service. A text is its
-- code points; `u64` wraps, as in a build without overflow checks, and a split inside of a character
-- of several bytes is a panic, `none`.
pub mod Bounds
use rind.Prelude.{
  ℕ, ◌*◌, ◌%◌, ◌^◌, Bool, true, false, Option, none, some, List, [], ◌∷◌, ◌++◌, any, leb, nat_beq,
  if◌then◌else◌, ◌==◌,
}
use rind.Text.{Text, codes, text_eq}
use rind.Text.Split.{split, trim}
use rind.Text.Number.{parse_unsigned}
use rind.ScopedNames.{joined, normalize_uaddr}
use rind.Services.{Effect, dispatch}
use rind.Services.Exits.{ServiceEventKind, started, stopped, failed, exited_with}
use mathlib.Core.Option

-- the size of `u64`
abbrev pub u64 : ℕ
u64 = 18446744073709551616

-- `split_at(s.len() - 1)` of a text that is not empty
unfoldable pub split_last : ℕ → Text → Text × ℕ
split_last c [] = ([], c)
split_last c (d ∷ s) = let rest = split_last d s in (c ∷ rest.0, rest.1)

-- the seconds of a unit
unfoldable pub seconds_in : ℕ → Option ℕ
seconds_in unit =
    if nat_beq unit b's'
    then some 1
    else if nat_beq unit b'm'
    then some 60
    else if nat_beq unit b'h'
    then some 3600
    else if nat_beq unit b'd'
    then some 86400
    else none

-- a number and its unit, or else the whole text as a number
unfoldable pub with_unit : Option ℕ → Option ℕ → Text → Option ℕ
with_unit (some num) (some seconds) s = some (num * seconds % u64)
with_unit num unit s = parse_unsigned u64 s

unfoldable pub parse_trimmed : Text → Option (Option ℕ)
unfolding split_last seconds_in with_unit
parse_trimmed [] = some none
parse_trimmed (c ∷ s) =
    let parts = split_last c s in
    if leb 128 parts.1
    then none
    else some (with_unit (parse_unsigned u64 parts.0) (seconds_in parts.1) (c ∷ s))

unfoldable pub parse_duration : Text → Option (Option ℕ)
unfolding parse_trimmed
parse_duration s = parse_trimmed (trim s)

-- A declared timer with its group.
pub record Declared : Type 0 where
  pub group : Text
  pub name : Text
  pub after : Option (List Text)

abbrev first_part : List Text → Text
first_part [] = []
first_part (p ∷ ps) = p

-- the service's name as `after` has it
unfoldable pub timed_name : Text → Text
timed_name service = first_part (split b'@' (normalize_uaddr service []))

unfoldable pub timers_after : Text → List Declared → List Text
timers_after name [] = []
timers_after name (t ∷ ts) =
    let rest = timers_after name ts in
    elim t.after [
      | none ↦ rest
      | some afters ↦ if any (λ a. a == name) afters then joined t.group t.name ∷ rest else rest
    ]

abbrev timer_action : ServiceEventKind → Text
timer_action started = codes "start"
timer_action kind = codes "stop"

abbrev dispatch_each : Text → List Text → List Effect
dispatch_each action [] = []
dispatch_each action (name ∷ names) =
    dispatch (codes "timer") action name ∷ dispatch_each action names

unfoldable pub reconcile_timers : Text → ServiceEventKind → List Declared → List Effect
unfolding timed_name timers_after
reconcile_timers service kind ts =
    dispatch_each (timer_action kind) (timers_after (timed_name service) ts)
