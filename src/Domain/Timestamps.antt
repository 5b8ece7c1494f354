-- ===== src/Domain/Timestamps.antt =====
-- Decimal Unix seconds (packages/domain/src/schemas.ts).
pub mod Order
pub mod Accepts
use rovaulta.Prelude.{
  ℕ, Bool, true, false, ◌&&◌, ◌||◌, List, [], ◌∷◌, Str, str_eq, str_lt, ltb, leb, ◌==◌, all, length,
  codes, if◌then◌else◌, ◌+◌, ◌-◌, ◌*◌, ◌^◌, not,
}
use rovaulta.Errors.{invalid_expiry, malformed_object, Result, ok, err, fail_protocol}
use rovaulta.Domain.Value.{Value, str}
use Prim.Native.Nat.{Ordering}

-- `[0-9]`
abbrev pub is_digit : ℕ → Bool
is_digit c = leb b'0' c && leb c b'9'

-- `UNIX_SECONDS_PATTERN.test(input)`
abbrev pub is_unix_seconds : Str → Bool
is_unix_seconds [] = false
is_unix_seconds (c ∷ s) =
    c == b'0' && length s == 0 || leb b'1' c && leb c b'9' && leb (length s) 11 && all is_digit s

abbrev pub max_unix_seconds : Str
max_unix_seconds = codes "253402300799"

-- The sign of the number that `compareUnixTimestamps` returns.
unfoldable pub compare_unix_timestamps : Str → Str → Ordering
compare_unix_timestamps left right =
    if length left == length right
    then if str_eq left right
      then Ordering.eq
      else if str_lt left right
      then Ordering.lt
      else Ordering.gt
    else if ltb (length left) (length right)
    then Ordering.lt
    else Ordering.gt

unfoldable pub parse_unix_timestamp : Value → Result Str
parse_unix_timestamp (str s) =
    if is_unix_seconds s && not (length s == 12 && str_lt max_unix_seconds s)
    then ok s
    else fail_protocol malformed_object
parse_unix_timestamp _ = fail_protocol malformed_object

abbrev pub is_after : Ordering → Bool
is_after Ordering.gt = true
is_after _ = false

unfoldable pub parse_expiry : Value → Str → Result Str
unfolding parse_unix_timestamp compare_unix_timestamps
parse_expiry input issued_at = elim (parse_unix_timestamp input) [
  | ok expires_at ↦
      if is_after (compare_unix_timestamps expires_at issued_at)
      then ok expires_at
      else fail_protocol invalid_expiry
  | err e ↦ fail_protocol invalid_expiry
]

-- `BigInt(text)` of a decimal text
abbrev pub to_number : Str → ℕ
to_number [] = 0
to_number (c ∷ s) = (c - b'0') * 10 ^ length s + to_number s
