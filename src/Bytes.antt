-- ===== src/Bytes.antt =====
-- Rust's `to_le_bytes` and `from_le_bytes` of `u16` and `u32`, and the conversions `as u16`, `as u32`.
use rind.Prelude.{ℕ, ◌+◌, ◌*◌, ◌/◌, ◌%◌, ◌<◌, ◌≡◌, List, [], ◌∷◌, arith}

abbrev pub u16_mod : ℕ
u16_mod = 65536

abbrev pub u32_mod : ℕ
u32_mod = 4294967296

abbrev pub IsU16 : ℕ → Type 0
IsU16 n = n < u16_mod

abbrev pub IsU32 : ℕ → Type 0
IsU32 n = n < u32_mod

abbrev pub u16_to_le : ℕ → List ℕ
u16_to_le n = n % 256 ∷ n / 256 % 256 ∷ []

abbrev pub u16_from_le : ℕ → ℕ → ℕ
u16_from_le a b = a + 256 * b

abbrev pub u32_to_le : ℕ → List ℕ
u32_to_le n = n % 256 ∷ n / 256 % 256 ∷ n / 65536 % 256 ∷ n / 16777216 % 256 ∷ []

abbrev pub u32_from_le : ℕ → ℕ → ℕ → ℕ → ℕ
u32_from_le a b c d = a + 256 * b + 65536 * c + 16777216 * d

pub u16_from_le-u16_to_le : (n : ℕ) → IsU16 n → u16_from_le (n % 256) (n / 256 % 256) ≡ n
u16_from_le-u16_to_le n h = omega arith

pub u32_from_le-u32_to_le :
    (n : ℕ)
    → IsU32 n
    → u32_from_le (n % 256) (n / 256 % 256) (n / 65536 % 256) (n / 16777216 % 256) ≡ n
u32_from_le-u32_to_le n h = omega arith
