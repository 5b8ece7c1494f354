-- ===== src/Domain/Timestamps/Accepts.antt =====
-- Which timestamps and expiries the parsers accept.
use mathlib.Core.Path.{subst, ap}
use native.Mathlib.Nat.{pow-le-pow_right}
use rovaulta.Errors.{
  ok, Failure, err, protocol, invalid_expiry, Result-cases, Result, fail_protocol,
}
use rovaulta.Prelude.{
  ◌≤◌, ◌≡◌, arith, true, Bool-cases, ◌↔◌, false, sym, inl, leb, inr, ◌<◌, ◌-◌, ◌^◌, [], refl, ℕ,
  if◌then◌else◌, ltb, ◌∙◌, ap, lt→ltb,
}
use rovaulta.Domain.Timestamps.{
  is_digit, is_unix_seconds, max_unix_seconds, parse_unix_timestamp, compare_unix_timestamps,
  parse_expiry, to_number, Str, Value, all, Bool, length, ◌&&◌, not, ◌==◌, str_lt, true, ok, ◌∷◌,
  false, leb, str, err, invalid_expiry, ℕ, Result, ltb, is_after, fail_protocol,
}
use rovaulta.Domain.Timestamps.Order.{
  IsDecimal, IsDecimal-digits, to_number-lt, str_lt-eq-ltb, lead_le, lead_digit,
  compare_unix_timestamps_lem,
}

-- A canonical decimal number of seconds up to the end of the year 9999.
abbrev pub IsTimestamp : Str → Type 0
IsTimestamp s = IsDecimal s × (to_number s ≤ 253402300799)

pattern_IsDecimal : (s : Str) → is_unix_seconds s ≡ true → IsDecimal s × (length s ≤ 12)
pattern_IsDecimal [] h = cc
pattern_IsDecimal (c ∷ []) h = ground arith
pattern_IsDecimal (c ∷ d ∷ s) h = ground arith

short_le : (s : Str) → all is_digit s ≡ true → length s ≤ 11 → to_number s ≤ 253402300799
short_le s h k =
    omega
      (arith, to_number-lt s h, pow-le-pow_right {n = 10} (omega arith) {i = length s} {j = 11} k)

ltb-false_iff : (a b : ℕ) → (ltb a b ≡ false) ↔ (b ≤ a)
ltb-false_iff a b = ground arith

full_le :
    (s : Str)
    → all is_digit s ≡ true
    → length s ≡ 12
    → (str_lt max_unix_seconds s ≡ false) ↔ (to_number s ≤ 253402300799)
full_le s h k =
    subst (λ b. (b ≡ false) ↔ (to_number s ≤ 253402300799))
      (sym (str_lt-eq-ltb max_unix_seconds s (sym k) refl h))
      (ltb-false_iff 253402300799 (to_number s))

accepts : Str → Bool
accepts s = is_unix_seconds s && not (length s == 12 && str_lt max_unix_seconds s)

accepts-IsTimestamp : (s : Str) → accepts s ≡ true → IsTimestamp s
unfolding accepts
accepts-IsTimestamp s h =
    let p = pattern_IsDecimal s (ground arith) in
    (
      p.0,
      elim (Bool-cases (length s == 12)) [
        | inl full ↦ (full_le s (IsDecimal-digits s p.0) (ground arith)).0 (ground arith)
        | inr short ↦ short_le s (IsDecimal-digits s p.0) (ground arith)
      ],
    )

length_le : (s : Str) → IsTimestamp s → length s ≤ 12
length_le [] h = omega arith
length_le (c ∷ []) h = omega arith
length_le (c ∷ d ∷ s) ((digits, lead), le) = elim (Bool-cases (leb (length (c ∷ d ∷ s)) 12)) [
  | inl e ↦ ground arith
  | inr e ↦ absurd (
      omega (
        arith,
        lead_le (c - b'0') (10 ^ length (d ∷ s)) (to_number (d ∷ s)) (lead_digit c d s digits lead),
        pow-le-pow_right {n = 10} (omega arith) {i = 12} {j = length (d ∷ s)} (ground arith),
      ))
]

IsDecimal-pattern : (s : Str) → IsDecimal s → length s ≤ 12 → is_unix_seconds s ≡ true
IsDecimal-pattern [] h k = elim h [ ]
IsDecimal-pattern (c ∷ []) h k = ground arith
IsDecimal-pattern (c ∷ d ∷ s) h k = ground arith

IsTimestamp-accepts : (s : Str) → IsTimestamp s → accepts s ≡ true
unfolding accepts
IsTimestamp-accepts s h =
    rw (IsDecimal-pattern s h.0 (length_le s h)) (elim (Bool-cases (length s == 12)) [
      | inl full ↦ rw (full, (full_le s (IsDecimal-digits s h.0) (ground arith)).1 h.1)
      | inr short ↦ rw short
    ])

-- `parseUnixTimestamp` returns exactly the canonical decimal texts of at most 253402300799, and
-- returns them unchanged.
pub parse_unix_timestamp_iff :
    (v : Value) (r : Str) → (parse_unix_timestamp v ≡ ok r) ↔ ((v ≡ str r) × IsTimestamp r)
unfolding parse_unix_timestamp accepts
parse_unix_timestamp_iff (str s) r = elim (Bool-cases (accepts s)) [
  | inl good ↦ (
    λ e. (ground arith, rw (let q : s ≡ r = ground arith in q) at (accepts-IsTimestamp s good)),
    λ k. ground arith,
  )
  | inr bad ↦ (
    λ e. absurd (let q : false ≡ true = ground arith in cc),
    λ k. ground (arith, IsTimestamp-accepts r k.1),
  )
]
parse_unix_timestamp_iff _ r = ground arith

abbrev expires_after : Str → Str → Result Str
expires_after r issued_at =
    if is_after (compare_unix_timestamps r issued_at) then ok r else fail_protocol invalid_expiry

expires_after_lem :
    (r issued_at : Str)
    → IsDecimal r
    → IsDecimal issued_at
    → expires_after r issued_at
      ≡ (if ltb (to_number issued_at) (to_number r) then ok r else fail_protocol invalid_expiry)
expires_after_lem r issued_at h k = rw (compare_unix_timestamps_lem r issued_at h k) (ground arith)

parse_expiry-ok :
    (v : Value) (issued_at r : Str)
    → IsDecimal issued_at
    → parse_unix_timestamp v ≡ ok r
    → parse_expiry v issued_at
      ≡ (if ltb (to_number issued_at) (to_number r) then ok r else fail_protocol invalid_expiry)
unfolding parse_expiry
parse_expiry-ok v issued_at r h e =
    rw (e, parse_expiry) (expires_after_lem r issued_at ((parse_unix_timestamp_iff v r).0 e).1.0 h)

parse_expiry-err :
    (v : Value) (issued_at : Str) (e : Failure)
    → parse_unix_timestamp v ≡ err e
    → parse_expiry v issued_at ≡ fail_protocol invalid_expiry
unfolding parse_expiry
parse_expiry-err v issued_at e h = rw (h, parse_expiry)

-- `parseExpiry` returns exactly the timestamps that lie strictly after the issuance, unchanged,
-- and every other value makes it throw INVALID_EXPIRY, where the issuance is a canonical decimal
-- text.
pub parse_expiry_iff :
    (v : Value) (issued_at : Str)
    → IsDecimal issued_at
    → ((r : Str)
        → (parse_expiry v issued_at ≡ ok r)
          ↔ ((v ≡ str r) × IsTimestamp r × (to_number issued_at < to_number r)))
      × ((e : Failure) → parse_expiry v issued_at ≡ err e → e ≡ protocol invalid_expiry)
parse_expiry_iff v issued_at h = elim (Result-cases (parse_unix_timestamp v)) [
  | inl (r, found) ↦ (
    λ r'. (
      λ e.
          let q : r ≡ r' = ground (arith, parse_expiry-ok v issued_at r h found) in
          let p = (parse_unix_timestamp_iff v r).0 found in
          (
            p.0 ∙ ap str q,
            rw q at p.1,
            rw q at (
                let l : to_number issued_at < to_number r =
                  ground (arith, parse_expiry-ok v issued_at r h found) in
                l),
          ),
      λ k.
          let q : r ≡ r' = ground (arith, (parse_unix_timestamp_iff v r').1 (k.0, k.1)) in
          parse_expiry-ok v issued_at r h found ∙ rw (q, lt→ltb _ _ k.2),
    ),
    λ e k. ground (arith, parse_expiry-ok v issued_at r h found),
  )
  | inr (e, failed) ↦ (
    λ r. (
      λ k. absurd (
          let q : ok r ≡ fail_protocol invalid_expiry =
            sym k ∙ parse_expiry-err v issued_at e failed in
          cc),
      λ k.
          absurd (
            let q : ok r ≡ err e = sym ((parse_unix_timestamp_iff v r).1 (k.0, k.1)) ∙ failed in
            cc),
    ),
    λ f k. ground (arith, parse_expiry-err v issued_at e failed),
  )
]
