-- ===== src/Domain/Identifiers.antt =====
-- Branded identifiers, digests and nonces: the string patterns of
-- packages/domain/src/identifiers.ts, digest-values.ts and schemas.ts.
pub mod Accepts
pub mod Digests
use rovaulta.Prelude.{
  ℕ, ◌≡◌, Bool, true, false, ◌&&◌, ◌||◌, Option, none, some, List, [], ◌∷◌, ◌++◌, Str, str_eq, ltb,
  leb, ◌==◌, all, length, codes, starts_with, if◌then◌else◌, suc, zero,
}
use rovaulta.Errors.{invalid_identifier, malformed_object, Result, ok, fail_protocol}
use rovaulta.Domain.Value.{Value, str}

-- `[a-z0-9]`
abbrev pub is_alnum : ℕ → Bool
is_alnum c = leb b'a' c && leb c b'z' || leb b'0' c && leb c b'9'

-- `[a-z0-9._-]`
abbrev pub is_token_char : ℕ → Bool
is_token_char c = is_alnum c || c == b'.' || c == b'_' || c == b'-'

-- `[a-z0-9._-]*[a-z0-9]$`
abbrev pub token_tail : Str → Bool
token_tail [] = false
token_tail (c ∷ []) = is_alnum c
token_tail (c ∷ d ∷ s) = is_token_char c && token_tail (d ∷ s)

-- `IDENTIFIER_TOKEN.test(token)`
abbrev pub is_token : Str → Bool
is_token [] = false
is_token (c ∷ []) = is_alnum c
is_token (c ∷ d ∷ s) = is_alnum c && leb (length (d ∷ s)) 63 && token_tail (d ∷ s)

-- `input.indexOf(":")` with the two slices around it; `none` where there is no ":".
abbrev pub cut_colon : Str → Option (Str × Str)
cut_colon [] = none
cut_colon (c ∷ s) =
    if c == b':'
    then some ([], s)
    else elim (cut_colon s) [ none ↦ none | some p ↦ some (c ∷ p.0, p.1) ]

-- `actualPrefix` and `token`: both empty where there is no ":".
abbrev pub split_colon : Str → Str × Str
split_colon s = elim (cut_colon s) [ none ↦ ([], []) | some p ↦ p ]

unfoldable pub parse_identifier : Str → Value → Result Str
parse_identifier prefix (str s) =
    if str_eq (split_colon s).0 prefix && is_token (split_colon s).1
    then ok s
    else fail_protocol invalid_identifier
parse_identifier prefix _ = fail_protocol invalid_identifier

abbrev pub parse_site_id : Value → Result Str
parse_site_id = parse_identifier (codes "site")

abbrev pub parse_robot_id : Value → Result Str
parse_robot_id = parse_identifier (codes "robot")

abbrev pub parse_robot_build_id : Value → Result Str
parse_robot_build_id = parse_identifier (codes "robot-build")

abbrev pub parse_safety_envelope_id : Value → Result Str
parse_safety_envelope_id = parse_identifier (codes "safety-envelope")

abbrev pub parse_evaluator_version_id : Value → Result Str
parse_evaluator_version_id = parse_identifier (codes "evaluator-version")

abbrev pub parse_evaluation_id : Value → Result Str
parse_evaluation_id = parse_identifier (codes "evaluation")

abbrev pub parse_clearance_id : Value → Result Str
parse_clearance_id = parse_identifier (codes "clearance")

-- `[0-9a-f]`
abbrev pub is_hex : ℕ → Bool
is_hex c = leb b'0' c && leb c b'9' || leb b'a' c && leb c b'f'

-- `text.slice(n)` for n up to the length
abbrev pub drop : ℕ → Str → Str
drop zero s = s
drop (suc n) [] = []
drop (suc n) (c ∷ s) = drop n s

-- `SHA256_DIGEST_PATTERN.test(input)`
abbrev pub is_sha256 : Str → Bool
is_sha256 s = starts_with (codes "sha256:") s && length (drop 7 s) == 64 && all is_hex (drop 7 s)

-- `parseSha256Digest`, and with a brand each `parse…Digest` and `parseSafetyEnvelopeCommitment`
unfoldable pub parse_sha256_digest : Value → Result Str
parse_sha256_digest (str s) = if is_sha256 s then ok s else fail_protocol malformed_object
parse_sha256_digest _ = fail_protocol malformed_object

-- `[A-Za-z0-9_-]`
abbrev pub is_nonce_char : ℕ → Bool
is_nonce_char c = is_alnum c || leb b'A' c && leb c b'Z' || c == b'_' || c == b'-'

unfoldable pub parse_deployment_nonce : Value → Result Str
parse_deployment_nonce (str s) =
    if leb 16 (length s) && leb (length s) 128 && all is_nonce_char s
    then ok s
    else fail_protocol malformed_object
parse_deployment_nonce _ = fail_protocol malformed_object
