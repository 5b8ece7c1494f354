-- ===== src/Domain/Identifiers/Digests.antt =====
-- Which digests and nonces the patterns accept.
use rovaulta.Errors.{ok}
use rovaulta.Domain.Value.{Value}
use rovaulta.Prelude.{
  ◌≡◌, ℕ, Str, ◌≤◌, ◌⊎◌, codes, all, starts_with, true, ◌↔◌, arith, ◌++◌, length, All, Bool-cases,
  refl, inl, [], inr, false,
}
use rovaulta.Domain.Identifiers.{
  is_hex, drop, is_sha256, parse_sha256_digest, is_nonce_char, parse_deployment_nonce, ℕ, Str,
  Value, codes, all, starts_with, true, ok, str, length, ◌∷◌, false,
}
use rovaulta.Domain.Identifiers.Accepts.{IsAlnum}

abbrev pub IsHex : ℕ → Type 0
IsHex c = (b'0' ≤ c) × (c ≤ b'9') ⊎ (b'a' ≤ c) × (c ≤ b'f')

-- "sha256:" and 64 lowercase hexadecimal digits
abbrev pub IsSha256 : Str → Type 0
IsSha256 s = (t : Str) × (s ≡ codes "sha256:" ++ t) × (length t ≡ 64) × All IsHex t

abbrev pub IsNonceChar : ℕ → Type 0
IsNonceChar c = IsAlnum c ⊎ (b'A' ≤ c) × (c ≤ b'Z') ⊎ (c ≡ b'_') ⊎ (c ≡ b'-')

-- 16 to 128 characters of `[A-Za-z0-9_-]`
abbrev pub IsNonce : Str → Type 0
IsNonce s = (16 ≤ length s) × (length s ≤ 128) × All IsNonceChar s

all-IsHex_iff : (s : Str) → (all is_hex s ≡ true) ↔ All IsHex s
all-IsHex_iff [] = ground arith
all-IsHex_iff (c ∷ s) = ground (arith, all-IsHex_iff s)

all-IsNonceChar_iff : (s : Str) → (all is_nonce_char s ≡ true) ↔ All IsNonceChar s
all-IsNonceChar_iff [] = ground arith
all-IsNonceChar_iff (c ∷ s) = ground (arith, all-IsNonceChar_iff s)

append-drop : (p s : Str) → starts_with p s ≡ true → s ≡ p ++ drop (length p) s
append-drop [] s h = refl
append-drop (a ∷ p) [] h = cc
append-drop (a ∷ p) (b ∷ s) h = ground (arith, append-drop p s)

sha256_sound : (s : Str) → is_sha256 s ≡ true → IsSha256 s
sha256_sound s h = (
  drop 7 s,
  append-drop (codes "sha256:") s (ground arith),
  ground arith,
  (all-IsHex_iff (drop 7 s)).0 (ground arith),
)

sha256_complete :
    (s t : Str) → s ≡ codes "sha256:" ++ t → length t ≡ 64 → All IsHex t → is_sha256 s ≡ true
sha256_complete s t e h k = rw (e, h) ((all-IsHex_iff t).1 k)

-- `parseSha256Digest` returns exactly the canonical digests, unchanged.
pub parse_sha256_digest_iff :
    (v : Value) (r : Str) → (parse_sha256_digest v ≡ ok r) ↔ ((v ≡ str r) × IsSha256 r)
unfolding parse_sha256_digest
parse_sha256_digest_iff (str s) r = elim (Bool-cases (is_sha256 s)) [
  | inl good ↦ (
    λ e. (ground arith, rw (let q : s ≡ r = ground arith in q) at (sha256_sound s good)),
    λ k. ground arith,
  )
  | inr bad ↦ (
    λ e. absurd (let q : false ≡ true = ground arith in cc),
    λ k. ground (arith, sha256_complete r k.1.0 k.1.1 k.1.2 k.1.3),
  )
]
parse_sha256_digest_iff _ r = ground arith

-- `parseDeploymentNonce` returns exactly the texts of 16 to 128 unambiguous characters, unchanged.
pub parse_deployment_nonce_iff :
    (v : Value) (r : Str) → (parse_deployment_nonce v ≡ ok r) ↔ ((v ≡ str r) × IsNonce r)
unfolding parse_deployment_nonce
parse_deployment_nonce_iff (str s) r = ground (arith, all-IsNonceChar_iff s, all-IsNonceChar_iff r)
parse_deployment_nonce_iff _ r = ground arith

-- The two directions as they are used.
pub sha256 : (v : Value) {r : Str} → parse_sha256_digest v ≡ ok r → IsSha256 r
sha256 v {r} e = ((parse_sha256_digest_iff v r).0 e).1

pub parse_sha256_digest-str : (r : Str) → IsSha256 r → parse_sha256_digest (str r) ≡ ok r
parse_sha256_digest-str r h = (parse_sha256_digest_iff (str r) r).1 (refl, h)
