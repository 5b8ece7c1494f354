-- ===== src/Chain/Numbers/Decimal.antt =====
-- The text of a number reads back as the number.
use rovaulta.Domain.Timestamps.{to_number}
use rovaulta.Chain.Numbers.{digits_before, show_bigint, Str, suc, [], ltb}
use native.Mathlib.Nat.{pow-succ'}
use rovaulta.Prelude.{
  ◌≡◌, ℕ, ◌*◌, ◌/◌, Str, ◌<◌, ◌+◌, suc, ◌^◌, ◌%◌, [], arith, length, ◌∙◌, Bool-cases, ap, ltb, inl,
  inr, ◌∷◌, zero, ◌-◌,
}

split_lem : (d q r s : ℕ) → q * (10 * d) + (r * d + s) ≡ (q * 10 + r) * d + s
split_lem d q r s = omega arith

step_lem : (n d s : ℕ) → (n / 10) * (10 * d) + ((n % 10) * d + s) ≡ n * d + s
step_lem n d s =
    let e : (n / 10) * 10 + n % 10 ≡ n = omega arith in
    split_lem d (n / 10) (n % 10) s ∙ ap (λ m. m * d + s) e

digit_lem : (n : ℕ) → b'0' + n - b'0' ≡ n
digit_lem n = omega arith

digits_before_lem :
    (fuel n : ℕ) (acc : Str)
    → n < fuel
    → to_number (digits_before fuel n acc) ≡ n * 10 ^ length acc + to_number acc
unfolding digits_before
digits_before_lem zero n acc h = absurd (omega (arith, h))
digits_before_lem (suc fuel) n acc h =
    let d = 10 ^ length acc in
    let s = to_number acc in
    elim (Bool-cases (ltb n 10)) [
      | inl e ↦ rw (to_number, e) (ap (λ m. m * d + s) (digit_lem n))
      | inr e ↦
          let ih = digits_before_lem fuel (n / 10) ((b'0' + n % 10) ∷ acc) (ground arith) in
          rw (to_number, e)
            (ih
              ∙ ap (λ k. (n / 10) * k + ((b'0' + n % 10 - b'0') * d + s))
                  (pow-succ' 10 (length acc))
              ∙ ap (λ r. (n / 10) * (10 * d) + (r * d + s)) (digit_lem (n % 10))
              ∙ step_lem n d s)
    ]

-- The decimal text of a number is the text of that number.
pub to_number-show_bigint : (n : ℕ) → to_number (show_bigint n) ≡ n
unfolding show_bigint
to_number-show_bigint n = digits_before_lem (suc n) n [] (omega arith) ∙ omega arith
