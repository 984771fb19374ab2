-- ===== src/Text.antt =====
-- Texts: Rust's `str`, `String` and the `Ustr` of crates/common/src/types.rs, as the list of their
-- code points.
pub mod Split
pub mod Number
use Prim.Native.Char.{code}
use rind.Prelude.{
  ℕ, String, ◌≡◌, ◌↔◌, Bool, true, false, List, [], ◌∷◌, arith, if◌then◌else◌, Eq, nat_beq,
}

abbrev pub Text : Type 0
Text = List ℕ

-- The text of a literal.
abbrev pub codes : String → Text
codes String.[] = []
codes (String.◌∷◌ first rest) = code first ∷ codes rest

abbrev pub text_beq : Text → Text → Bool
text_beq [] [] = true
text_beq [] (y ∷ ys) = false
text_beq (x ∷ xs) [] = false
text_beq (x ∷ xs) (y ∷ ys) = let rest = text_beq xs ys in if nat_beq x y then rest else false

pub text_beq_iff : (a b : Text) → (text_beq a b ≡ true) ↔ (a ≡ b)
text_beq_iff [] [] = ground arith
text_beq_iff [] (y ∷ ys) = ground arith
text_beq_iff (x ∷ xs) [] = ground arith
text_beq_iff (x ∷ xs) (y ∷ ys) = ground (arith, text_beq_iff xs ys)

instance abbrev pub text_eq : Eq Text
text_eq = record { beq = text_beq; beq_iff = text_beq_iff }
