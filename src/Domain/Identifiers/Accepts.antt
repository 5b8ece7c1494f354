-- ===== src/Domain/Identifiers/Accepts.antt =====
-- Which strings the patterns accept.
use rovaulta.Prelude.{
  ℕ, ◌≡◌, refl, ◌≢◌, ◌↔◌, ◌≤◌, true, false, ◌&&◌, some, [], ◌∷◌, ◌++◌, Str, str_eq, str_eq_refl,
  eq_of_str_eq, All, length, arith, Bool-cases, inl, inr, Option-cases, ◌⊎◌,
}
use rovaulta.Errors.{ok}
use rovaulta.Domain.Value.{Value, str}
use rovaulta.Domain.Identifiers.{
  is_alnum, is_token_char, token_tail, is_token, cut_colon, split_colon, parse_identifier,
}

-- A prefix without ":".
abbrev pub HasNoColon : Str → Type 0
HasNoColon = All (λ c. c ≢ b':')

cut_colon-append : (p t : Str) → HasNoColon p → cut_colon (p ++ b':' ∷ t) ≡ some (p, t)
cut_colon-append [] t h = refl
cut_colon-append (c ∷ p) t h = ground (arith, cut_colon-append p t h.1)

split_colon-append : (p t : Str) → HasNoColon p → split_colon (p ++ b':' ∷ t) ≡ (p, t)
split_colon-append p t h = rw (cut_colon-append p t h, split_colon)

append-cut_colon : (s p t : Str) → cut_colon s ≡ some (p, t) → s ≡ p ++ b':' ∷ t
append-cut_colon [] p t h = cc
append-cut_colon (c ∷ s) [] t h = ground arith
append-cut_colon (c ∷ s) (d ∷ p) t h = elim (Option-cases (cut_colon s)) [
  | inl missing ↦ ground arith
  | inr (q, found) ↦ ground (arith, append-cut_colon s p t)
]

-- What `[a-z0-9](?:[a-z0-9._-]{0,62}[a-z0-9])?` spells: 1 to 64 characters of the alphabet, the
-- first and the last of them letters or digits.
abbrev pub IsAlnum : ℕ → Type 0
IsAlnum c = (b'a' ≤ c) × (c ≤ b'z') ⊎ (b'0' ≤ c) × (c ≤ b'9')

abbrev pub last_of : ℕ → Str → ℕ
last_of c [] = c
last_of c (d ∷ s) = last_of d s

abbrev pub IsTokenChar : ℕ → Type 0
IsTokenChar c = IsAlnum c ⊎ (c ≡ b'.') ⊎ (c ≡ b'_') ⊎ (c ≡ b'-')

abbrev pub IsToken : ℕ → Str → Type 0
IsToken c s = (length (c ∷ s) ≤ 64) × IsAlnum c × IsAlnum (last_of c s) × All IsTokenChar s

is_alnum_iff : (c : ℕ) → (is_alnum c ≡ true) ↔ IsAlnum c
is_alnum_iff c = ground arith

is_token_char_iff : (c : ℕ) → (is_token_char c ≡ true) ↔ IsTokenChar c
is_token_char_iff c = ground arith

token_tail_iff :
    (c : ℕ) (s : Str)
    → (token_tail (c ∷ s) ≡ true) ↔ (IsAlnum (last_of c s) × All IsTokenChar (c ∷ s))
token_tail_iff c [] = ground arith
token_tail_iff c (d ∷ s) = ground (arith, is_token_char_iff c, token_tail_iff d s)

is_token_iff : (c : ℕ) (s : Str) → (is_token (c ∷ s) ≡ true) ↔ IsToken c s
is_token_iff c [] = ground arith
is_token_iff c (d ∷ s) = ground (arith, token_tail_iff d s)

-- The strings of a prefix, a ":" and a token.
abbrev pub IsIdentifier : Str → Str → Type 0
IsIdentifier prefix r = (c : ℕ) × (t : Str) × (r ≡ prefix ++ b':' ∷ c ∷ t) × IsToken c t

token_parts :
    (prefix p t r : Str)
    → r ≡ p ++ b':' ∷ t
    → p ≡ prefix
    → is_token t ≡ true
    → IsIdentifier prefix r
token_parts prefix p [] r e same h = cc
token_parts prefix p (c ∷ t) r e same h = (c, t, rw (← same) e, (is_token_iff c t).0 h)

split_colon-IsIdentifier :
    (prefix s : Str)
    → str_eq (split_colon s).0 prefix && is_token (split_colon s).1 ≡ true
    → IsIdentifier prefix s
split_colon-IsIdentifier prefix s h = elim (Option-cases (cut_colon s)) [
  | inl missing ↦ absurd (let bad : false ≡ true = ground arith in cc)
  | inr (q, found) ↦
      token_parts prefix q.0 q.1 s (append-cut_colon s q.0 q.1 found)
        (eq_of_str_eq q.0 prefix (ground arith)) (ground arith)
]

IsIdentifier-split_colon :
    (prefix s : Str)
    → HasNoColon prefix
    → IsIdentifier prefix s
    → (str_eq (split_colon s).0 prefix && is_token (split_colon s).1) ≡ true
IsIdentifier-split_colon prefix s h (c, t, e, k) =
    rw (e, split_colon-append prefix (c ∷ t) h, str_eq_refl prefix) ((is_token_iff c t).1 k)

-- `parseIdentifier` returns exactly the strings that are the prefix, a ":" and a token of 1 to 64
-- characters, and returns them unchanged, where the prefix has no ":".
pub parse_identifier_iff :
    (prefix : Str) (v : Value) (r : Str)
    → HasNoColon prefix
    → (parse_identifier prefix v ≡ ok r) ↔ ((v ≡ str r) × IsIdentifier prefix r)
unfolding parse_identifier
parse_identifier_iff prefix (str s) r h =
    elim (Bool-cases (str_eq (split_colon s).0 prefix && is_token (split_colon s).1)) [
      | inl good ↦ (
        λ e. (
          ground arith,
          rw (let q : s ≡ r = ground arith in q) at (split_colon-IsIdentifier prefix s good),
        ),
        λ k. ground arith,
      )
      | inr bad ↦ (
        λ e. absurd (let q : false ≡ true = ground arith in cc),
        λ k. ground (arith, IsIdentifier-split_colon prefix r h k.1),
      )
    ]
parse_identifier_iff prefix _ r h = ground arith

-- The two directions as they are used.
pub identifier :
    (prefix : Str) (v : Value) {r : Str}
    → HasNoColon prefix
    → parse_identifier prefix v ≡ ok r
    → IsIdentifier prefix r
identifier prefix v {r} h e = ((parse_identifier_iff prefix v r h).0 e).1

pub parse_identifier-str :
    (prefix r : Str)
    → HasNoColon prefix
    → IsIdentifier prefix r
    → parse_identifier prefix (str r) ≡ ok r
parse_identifier-str prefix r h k = (parse_identifier_iff prefix (str r) r h).1 (refl, k)
