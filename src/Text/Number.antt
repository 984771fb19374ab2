-- ===== src/Text/Number.antt =====
-- Rust's `str::parse` for `u16`, `u32` and `i64`.
use rind.Prelude.{
  ℕ, ◌+◌, ◌-◌, ◌*◌, ◌<◌, ◌≡◌, Bool, [], ◌∷◌, Option, none, some, arith, if◌then◌else◌, ltb, leb,
  nat_beq, ◌&&◌,
}
use rind.Text.{Text}

abbrev pub is_digit : ℕ → Bool
is_digit c = leb b'0' c && leb c b'9'

-- the digits read so far make `acc`; `none` on another character or at the bound
unfoldable pub parse_digits : ℕ → ℕ → Text → Option ℕ
parse_digits bound acc [] = some acc
parse_digits bound acc (c ∷ s) =
    let acc' = acc * 10 + (c - b'0') in
    let rest = parse_digits bound acc' s in
    if is_digit c then (if ltb acc' bound then rest else none) else none

-- a sign `+` is taken, and there is one digit at least
unfoldable pub parse_unsigned : ℕ → Text → Option ℕ
parse_unsigned bound [] = none
parse_unsigned bound (c ∷ []) =
    if is_digit c then (if ltb (c - b'0') bound then some (c - b'0') else none) else none
parse_unsigned bound (c ∷ d ∷ s) =
    if nat_beq c b'+' then parse_digits bound 0 (d ∷ s) else parse_digits bound 0 (c ∷ d ∷ s)

pub parse_digits-lt :
    (bound acc : ℕ) (s : Text) (n : ℕ) → acc < bound → parse_digits bound acc s ≡ some n → n < bound
unfolding parse_digits
parse_digits-lt bound acc [] n h e = ground arith
parse_digits-lt bound acc (c ∷ s) n h e =
    ground (arith, parse_digits-lt bound (acc * 10 + (c - b'0')) s n)
