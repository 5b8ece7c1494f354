-- ===== src/Domain/Canonical.antt =====
-- Canonical JSON (packages/domain/src/canonical.ts): strict serialization with sorted keys, and its
-- UTF-8 bytes. A value here is a tree, so the check for cycles never fires and is left out. Every
-- failure has the code CANONICALIZATION_FAILURE.
use rovaulta.Errors.{
  Result, require, ok, fail_protocol, ◌>>=◌, protocol, canonicalization_failure, ◌>>◌,
}
use rovaulta.Domain.Value.{
  Fields, Value, field, name, Items, hole, item, bool, str, integer, arr, obj, only_data, end, nil,
  null, symbol,
}
use rovaulta.Prelude.Int.{ℤ, pos, negsuc}
use rovaulta.Prelude.{
  ℕ, Str, List, if◌then◌else◌, ◌/◌, ◌∷◌, suc, [], Bool, ltb, ◌%◌, ◌==◌, ◌++◌, ◌+◌, leb, true, not,
  ◌-◌, ◌&&◌, str_lt, zero, codes, ◌*◌, false,
}
use rovaulta.Prelude.Sort.{sort}

-- Lower-case hexadecimal digit, and two of them: `byte.toString(16).padStart(2, "0")`.
abbrev pub hex_digit : ℕ → ℕ
hex_digit d = if ltb d 10 then b'0' + d else b'a' + (d - 10)

abbrev pub hex_byte : ℕ → Str
hex_byte b = hex_digit (b / 16) ∷ hex_digit (b % 16) ∷ []

-- `JSON.stringify` of one code unit; the strings that reach it hold no unpaired surrogate.
abbrev pub escape_unit : ℕ → Str
escape_unit c =
    if c == b'"'
    then b'\\' ∷ b'"' ∷ []
    else if c == b'\\'
    then b'\\' ∷ b'\\' ∷ []
    else if c == 8
    then b'\\' ∷ b'b' ∷ []
    else if c == 9
    then b'\\' ∷ b't' ∷ []
    else if c == 10
    then b'\\' ∷ b'n' ∷ []
    else if c == 12
    then b'\\' ∷ b'f' ∷ []
    else if c == 13
    then b'\\' ∷ b'r' ∷ []
    else if ltb c 32
    then b'\\' ∷ b'u' ∷ b'0' ∷ b'0' ∷ hex_byte c
    else c ∷ []

abbrev pub escape_units : Str → Str
escape_units [] = []
escape_units (c ∷ s) = escape_unit c ++ escape_units s

-- `JSON.stringify(text)`
abbrev pub quote : Str → Str
quote s = b'"' ∷ (escape_units s ++ b'"' ∷ [])

-- The decimal digits of a number below 10 ^ fuel.
abbrev pub decimal_digits : ℕ → ℕ → Str → Str
decimal_digits zero n acc = acc
decimal_digits (suc fuel) n acc =
    let rest = decimal_digits fuel (n / 10) ((b'0' + n % 10) ∷ acc) in
    if ltb n 10 then (b'0' + n) ∷ acc else rest

-- `String(value)` of a safe integer, which has at most 16 digits.
abbrev pub show_nat : ℕ → Str
show_nat n = decimal_digits 16 n []

abbrev pub show_integer : ℤ → Str
show_integer (pos n) = show_nat n
show_integer (negsuc n) = b'-' ∷ show_nat (suc n)

-- `Number.isSafeInteger`
abbrev pub is_safe : ℤ → Bool
is_safe (pos n) = leb n 9007199254740991
is_safe (negsuc n) = ltb n 9007199254740991

-- No unpaired surrogate: the loop of `assertCanonicalString`.
abbrev pub is_high : ℕ → Bool
is_high c = leb 0xd800 c && leb c 0xdbff

abbrev pub is_low : ℕ → Bool
is_low c = leb 0xdc00 c && leb c 0xdfff

pub is_well_formed : Str → Bool
is_well_formed [] = true
is_well_formed (c ∷ []) = not (is_high c) && not (is_low c)
is_well_formed (c ∷ d ∷ s) =
    let paired = is_well_formed s in
    let single = is_well_formed (d ∷ s) in
    if is_high c then is_low d && paired else not (is_low c) && single

-- The fields of an object whose own keys are all strings.
abbrev pub entries : Fields → List (Str × Value)
entries end = []
entries (field symbol d v fs) = entries fs
entries (field (name k) d v fs) = (k, v) ∷ entries fs

-- `texts.join(",")`
abbrev pub join_comma : List Str → Str
join_comma [] = []
join_comma (t ∷ []) = t
join_comma (t ∷ u ∷ ts) = t ++ b',' ∷ join_comma (u ∷ ts)

-- `keys.sort()`
abbrev pub key_le : {A : Type 0} → Str × A → Str × A → Bool
key_le a b = not (str_lt b.0 a.0)

-- Unicode normalization is the platform's: `value.normalize("NFC") === value`.
module _ (is_nfc : Str → Bool) where
  pub assert_canonical_string : Str → Result (Unit {0})
  unfolding is_well_formed
  assert_canonical_string s =
      require (is_nfc s && is_well_formed s) (protocol canonicalization_failure)

  assert_keys : List (Str × Value) → Result (Unit {0})
  unfolding assert_canonical_string
  assert_keys [] = ok tt
  assert_keys ((k, v) ∷ es) = do assert_canonical_string k; assert_keys es

  -- The items and the fields, in order, with the serializer of the next depth. Each call returns
  -- its text and the number of nodes visited so far (`state.nodes`).
  serialize_items : (Value → ℕ → Result (Str × ℕ)) → Items → ℕ → Result (List Str × ℕ)
  serialize_items next nil nodes = ok ([], nodes)
  serialize_items next (hole xs) nodes = fail_protocol canonicalization_failure
  serialize_items next (item v xs) nodes = do
    (text, visited) ← next v nodes
    (rest, total) ← serialize_items next xs visited
    ok (text ∷ rest, total)

  serialize_entries :
      (Value → ℕ → Result (Str × ℕ)) → List (Str × Value) → ℕ → Result (List Str × ℕ)
  serialize_entries next [] nodes = ok ([], nodes)
  serialize_entries next ((k, v) ∷ es) nodes = do
    (text, visited) ← next v nodes
    (rest, total) ← serialize_entries next es visited
    ok ((quote k ++ b':' ∷ text) ∷ rest, total)

  -- `serializeValue` behind its check of the limits, with `serializeArray` and `serializeObject`.
  serialize_node : (Value → ℕ → Result (Str × ℕ)) → Value → ℕ → Result (Str × ℕ)
  unfolding assert_canonical_string assert_keys serialize_items serialize_entries
  serialize_node next null nodes = ok (codes "null", nodes)
  serialize_node next (bool true) nodes = ok (codes "true", nodes)
  serialize_node next (bool false) nodes = ok (codes "false", nodes)
  serialize_node next (str s) nodes = do assert_canonical_string s; ok (quote s, nodes)
  serialize_node next (integer n) nodes = do
    require (is_safe n) (protocol canonicalization_failure)
    ok (show_integer n, nodes)
  serialize_node next (arr ordinary data_items xs) nodes = do
    require (ordinary && data_items) (protocol canonicalization_failure)
    (texts, total) ← serialize_items next xs nodes
    ok (b'[' ∷ (join_comma texts ++ b']' ∷ []), total)
  serialize_node next (obj plain fs) nodes = do
    require (plain && only_data fs) (protocol canonicalization_failure)
    assert_keys (entries fs)
    (texts, total) ← serialize_entries next (sort key_le (entries fs)) nodes
    ok (b'{' ∷ (join_comma texts ++ b'}' ∷ []), total)
  serialize_node next _ nodes = fail_protocol canonicalization_failure

  -- The first argument is the number of levels left: MAX_CANONICAL_DEPTH + 1 at the top.
  pub serialize_value : ℕ → Value → ℕ → Result (Str × ℕ)
  unfolding serialize_node
  serialize_value zero v nodes = fail_protocol canonicalization_failure
  serialize_value (suc levels) v nodes =
      if leb (nodes + 1) 10000
      then serialize_node (serialize_value levels) v (nodes + 1)
      else fail_protocol canonicalization_failure

  unfoldable pub canonical_serialize : Value → Result Str
  unfolding serialize_value
  canonical_serialize v = do (text, _) ← serialize_value 65 v 0; ok text

-- The UTF-8 bytes of one code point.
abbrev pub utf8_bytes : ℕ → List ℕ
utf8_bytes c =
    if leb c 0x7f
    then c ∷ []
    else if leb c 0x7ff
    then (0xc0 + c / 64) ∷ (0x80 + c % 64) ∷ []
    else if leb c 0xffff
    then (0xe0 + c / 4096) ∷ (0x80 + c / 64 % 64) ∷ (0x80 + c % 64) ∷ []
    else (0xf0 + c / 262144) ∷ (0x80 + c / 4096 % 64) ∷ (0x80 + c / 64 % 64) ∷ (0x80 + c % 64) ∷ []

-- The loop of `canonicalBytes` over code units: a high surrogate takes the next unit with it.
unfoldable pub utf8_encode : Str → List ℕ
utf8_encode [] = []
utf8_encode (c ∷ []) = utf8_bytes c
utf8_encode (c ∷ d ∷ s) =
    let paired = utf8_encode s in
    let single = utf8_encode (d ∷ s) in
    if is_high c
    then utf8_bytes (0x10000 + (c - 0xd800) * 1024 + (d - 0xdc00)) ++ paired
    else utf8_bytes c ++ single
