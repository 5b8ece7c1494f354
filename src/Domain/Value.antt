-- ===== src/Domain/Value.antt =====
-- Values of type `unknown` as the parsers inspect them, and the checks on plain data objects
-- (packages/domain/src/schemas.ts).
use rovaulta.Prelude.{
  Bool, true, false, ◌&&◌, Option, none, some, List, [], ◌∷◌, Str, str_eq, any, codes,
  if◌then◌else◌,
}
use rovaulta.Prelude.Int.{ℤ}
use rovaulta.Errors.{
  malformed_object, missing_required_binding, unsupported_version, protocol, Result, ok, ◌>>=◌,
  ◌>>◌, fail_protocol, require, or_throw,
}

-- An own key of an object.
pub data Key : Type 0 where
  name : Str → Key
  symbol : Key

-- `integer` is an integral double that is not -0; every other double is `other_number`.
-- An array says whether its prototype is `Array.prototype`, and whether its own keys besides
-- "length" are all indexes of enumerable data properties. An object says whether its prototype is
-- `Object.prototype` or null, and each own property whether it is an enumerable data property.
-- `opaque` is a function, a symbol, a bigint or an object of another class.
mutual
  pub data Value : Type 0 where
    undefined null opaque other_number : Value
    bool : Bool → Value
    integer : ℤ → Value
    str : Str → Value
    arr : Bool → Bool → Items → Value
    obj : Bool → Fields → Value

  pub data Items : Type 0 where
    nil : Items
    item : Value → Items → Items
    hole : Items → Items

  pub data Fields : Type 0 where
    end : Fields
    field : Key → Bool → Value → Fields → Fields

-- The loop over `Reflect.ownKeys` in `expectDataObject`.
abbrev pub only_data : Fields → Bool
only_data end = true
only_data (field symbol data_property v fs) = false
only_data (field (name k) data_property v fs) = data_property && only_data fs

-- `Object.hasOwn(record, key)`
abbrev pub has_own : Str → Fields → Bool
has_own k end = false
has_own k (field symbol d v fs) = has_own k fs
has_own k (field (name j) d v fs) = if str_eq j k then true else has_own k fs

-- `record.key`, of a plain data object
abbrev pub get : Str → Fields → Value
get k end = undefined
get k (field symbol d v fs) = get k fs
get k (field (name j) d v fs) = if str_eq j k then v else get k fs

unfoldable pub expect_data_object : Value → Result Fields
expect_data_object (obj plain fs) =
    if plain && only_data fs then ok fs else fail_protocol malformed_object
expect_data_object _ = fail_protocol malformed_object

-- `allowed.has(key)` for each of `Object.keys(record)`
abbrev pub only_known : List Str → Fields → Bool
only_known allowed end = true
only_known allowed (field symbol d v fs) = only_known allowed fs
only_known allowed (field (name k) d v fs) = any (str_eq k) allowed && only_known allowed fs

-- The loop over `requiredKeys`: a missing binding has an error code of its own.
abbrev pub require_keys : List Str → List Str → Fields → Result (Unit {0})
require_keys binding_keys [] fs = ok tt
require_keys binding_keys (k ∷ ks) fs =
    if has_own k fs
    then require_keys binding_keys ks fs
    else if any (str_eq k) binding_keys
    then fail_protocol missing_required_binding
    else fail_protocol malformed_object

pub data Dialect : Type 0 where
  current legacy : Dialect

-- `resolveVersion` of packages/domain/src/compatibility.ts
unfoldable pub resolve_version : Value → Str → Str → Option Dialect
resolve_version (str v) current_version legacy_version =
    if str_eq v current_version
    then some current
    else if str_eq v legacy_version
    then some legacy
    else none
resolve_version _ current_version legacy_version = none

unfoldable pub expect_exact_schema :
    Value → Str → Str → List Str → List Str → Result (Fields × Dialect)
unfolding expect_data_object resolve_version
expect_exact_schema input version legacy_version required_keys binding_keys = do
  record_ ← expect_data_object input
  require (has_own (codes "schemaVersion") record_) (protocol malformed_object)
  dialect ←
      or_throw (resolve_version (get (codes "schemaVersion") record_) version legacy_version)
        (protocol unsupported_version)
  require (only_known (codes "schemaVersion" ∷ required_keys) record_) (protocol malformed_object)
  require_keys binding_keys required_keys record_
  ok (record_, dialect)
