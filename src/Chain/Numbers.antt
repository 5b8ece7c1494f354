-- ===== src/Chain/Numbers.antt =====
-- Texts of bigints, `n.toString()`: their decimal digits.
pub mod Decimal
use rovaulta.Prelude.{Str, ℕ, suc, ltb, [], true, ◌+◌, ◌∷◌, ◌/◌, ◌%◌, zero, false}

-- The digits of n before a text. The fuel is above the number, so it never runs out.
pub digits_before : ℕ → ℕ → Str → Str
digits_before zero n acc = acc
digits_before (suc fuel) n acc = elim (ltb n 10) [
  | true ↦ (b'0' + n) ∷ acc
  | false ↦ digits_before fuel (n / 10) ((b'0' + n % 10) ∷ acc)
]

unfoldable pub show_bigint : ℕ → Str
unfolding digits_before
show_bigint n = digits_before (suc n) n []
