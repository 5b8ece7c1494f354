-- ===== src/Domain/Timestamps/Order.antt =====
-- The comparison of timestamps is that of the numbers which they spell.
use rovaulta.Prelude.{
  ℕ, ◌≡◌, refl, ◌≤◌, ◌<◌, ◌+◌, ◌-◌, ◌*◌, ◌^◌, Bool, true, [], ◌∷◌, Str, str_lt, all, length, arith,
  ltb, ◌==◌, if◌then◌else◌, ap, ◌≢◌, ◌⊎◌, Bool-cases, inl, inr, ltb→lt, eq_of_str_eq, str_eq_refl,
  sym, str_lt_total,
}
use native.Mathlib.Nat.{pow-suc, pow-le-pow_right}
use Prim.Native.Nat.{compare, Ordering}
use rovaulta.Domain.Timestamps.{is_digit, to_number, compare_unix_timestamps, str_eq}

digit_lt : (d p v : ℕ) → d ≤ 9 → v < p → d * p + v < p * 10
digit_lt d p v h k = grind arith

pub to_number-lt : (s : Str) → all is_digit s ≡ true → to_number s < 10 ^ length s
to_number-lt [] h = omega arith
to_number-lt (c ∷ s) h = rw pow-suc (
    digit_lt (c - b'0') (10 ^ length s) (to_number s) (ground arith)
      (to_number-lt s (ground arith)))

lex_lt : (a b p u v : ℕ) → a < b → u < p → a * p + u < b * p + v
lex_lt a b p u v h k = grind arith

ltb_lead :
    (a b p u v : ℕ) (r : Bool)
    → b'0' ≤ a
    → b'0' ≤ b
    → u < p
    → v < p
    → r ≡ ltb u v
    → (if a == b then r else ltb a b) ≡ ltb ((a - b'0') * p + u) ((b - b'0') * p + v)
ltb_lead a b p u v r ha hb hu hv e =
    ground (arith, lex_lt (a - b'0') (b - b'0') p u v, lex_lt (b - b'0') (a - b'0') p v u)

-- Texts of one length compare as their numbers do.
pub str_lt-eq-ltb :
    (s t : Str)
    → length s ≡ length t
    → all is_digit s ≡ true
    → all is_digit t ≡ true
    → str_lt s t ≡ ltb (to_number s) (to_number t)
str_lt-eq-ltb [] [] e h k = refl
str_lt-eq-ltb [] (b ∷ t) e h k = absurd (omega arith)
str_lt-eq-ltb (a ∷ s) [] e h k = absurd (omega arith)
str_lt-eq-ltb (a ∷ s) (b ∷ t) e h k = rw (← p) (
    ltb_lead a b (10 ^ length s) (to_number s) (to_number t) (str_lt s t) (ground arith)
      (ground arith) (to_number-lt s (ground arith)) (rw p (to_number-lt t (ground arith)))
      (str_lt-eq-ltb s t (omega arith) (ground arith) (ground arith)))
  where
    p : 10 ^ length s ≡ 10 ^ length t
    p = ap (λ n. 10 ^ n) (let q : length s ≡ length t = omega arith in q)

-- A canonical decimal text: digits, with no leading zero but that of "0".
abbrev pub IsDecimal : Str → Type 0
IsDecimal [] = ⊥
IsDecimal (c ∷ s) = (all is_digit (c ∷ s) ≡ true) × ((c ≢ b'0') ⊎ (s ≡ []))

pub lead_le : (d p v : ℕ) → 1 ≤ d → p ≤ d * p + v
lead_le d p v h = grind arith

-- A shorter canonical text spells a smaller number.
pub lead_digit :
    (d e : ℕ) (t : Str)
    → all is_digit (d ∷ e ∷ t) ≡ true
    → (d ≢ b'0') ⊎ (◌≡◌ {A = Str} (e ∷ t) [])
    → 1 ≤ d - b'0'
lead_digit d e t h lead = ground arith

to_number_mono :
    (s t : Str) → IsDecimal s → IsDecimal t → length s < length t → to_number s < to_number t
to_number_mono [] t h k lt = elim h [ ]
to_number_mono (c ∷ s) [] h k lt = elim k [ ]
to_number_mono (c ∷ s) (d ∷ []) h k lt = absurd (omega arith)
to_number_mono (c ∷ s) (d ∷ e ∷ t) h (k, lead) lt = omega (
  arith,
  to_number-lt (c ∷ s) h.0,
  pow-le-pow_right {n = 10} (omega arith)
      (let q : length (c ∷ s) ≤ length (e ∷ t) = omega arith in q),
  lead_le (d - b'0') (10 ^ length (e ∷ t)) (to_number (e ∷ t)) (lead_digit d e t k lead),
)

pub IsDecimal-digits : (s : Str) → IsDecimal s → all is_digit s ≡ true
IsDecimal-digits [] h = elim h [ ]
IsDecimal-digits (c ∷ s) h = h.0

compare_same_length :
    (s t : Str)
    → length s ≡ length t
    → all is_digit s ≡ true
    → all is_digit t ≡ true
    → (if str_eq s t then Ordering.eq else if str_lt s t then Ordering.lt else Ordering.gt)
      ≡ compare (to_number s) (to_number t)
compare_same_length s t e h k = elim (Bool-cases (str_eq s t)) [
  | inl same ↦ rw (eq_of_str_eq s t same, str_eq_refl t) (ground arith)
  | inr differ ↦
      ground
        (arith, str_lt-eq-ltb s t e h k, str_lt-eq-ltb t s (sym e) k h, str_lt_total s t differ)
]

compare-lt : (a b : ℕ) → a < b → compare a b ≡ Ordering.lt
compare-lt a b h = ground arith

compare-gt : (a b : ℕ) → b < a → compare a b ≡ Ordering.gt
compare-gt a b h = ground arith

-- `compareUnixTimestamps` on two canonical decimal texts is the comparison of the numbers that they
-- spell.
pub compare_unix_timestamps_lem :
    (s t : Str)
    → IsDecimal s
    → IsDecimal t
    → compare_unix_timestamps s t ≡ compare (to_number s) (to_number t)
unfolding compare_unix_timestamps
compare_unix_timestamps_lem s t h k = elim (Bool-cases (length s == length t)) [
  | inl same ↦
      rw same (compare_same_length s t (ground arith) (IsDecimal-digits s h) (IsDecimal-digits t k))
  | inr differ ↦ elim (Bool-cases (ltb (length s) (length t))) [
    | inl below ↦ rw (
      differ,
      below,
      compare-lt (to_number s) (to_number t) (to_number_mono s t h k (ltb→lt _ _ below)),
    )
    | inr above ↦ rw (
      differ,
      above,
      compare-gt (to_number s) (to_number t) (to_number_mono t s k h (ground arith)),
    )
  ]
]
