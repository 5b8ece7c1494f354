-- ===== src/Domain/Schemas/Exact.antt =====
-- The check of a schema's version and keys.
use rovaulta.Domain.Records.{property, object}
use rovaulta.Errors.{
  ok, Result-cases, bind_parts, >>-eq-ok, require, protocol, or_throw, unsupported_version,
  ok-injective,
}
use rovaulta.Domain.Value.{
  resolve_version, expect_exact_schema, Value, Fields, current, legacy, only_data, Dialect,
  only_known, require_keys, expect_data_object, has_own, get,
}
use rovaulta.Domain.Schemas.{
  expect_schema, current_version, List, expect_exact_schema, Value, legacy_version, Fields, ok,
  Dialect, str, version_of, codes, malformed_object, get,
}
use rovaulta.Prelude.{
  ◌≡◌, Str, List, ◌⊎◌, inl, arith, inr, true, some, codes, str_eq_refl, ◌∷◌, sym, ◌∙◌, ap,
}

-- The current or the retired name of a schema version.
abbrev pub HasVersion : Str → Str → Type 0
HasVersion suffix v = (v ≡ current_version suffix) ⊎ (v ≡ legacy_version suffix)

pub expect_schema-HasVersion :
    (suffix : Str) (required_keys binding_keys : List Str) (input : Value) {fs : Fields} {v : Str}
    → expect_schema suffix required_keys binding_keys input ≡ ok (fs, v)
    → HasVersion suffix v
unfolding expect_schema
expect_schema-HasVersion suffix required_keys binding_keys input {fs} {v} h =
    elim (Result-cases (
      expect_exact_schema input (current_version suffix) (legacy_version suffix) required_keys
        binding_keys)) [
          | inl ((gs, current), e) ↦ ground arith
          | inl ((gs, legacy), e) ↦ ground arith
          | inr (f, e) ↦ ground arith
        ]

resolve-HasVersion :
    (suffix v : Str)
    → HasVersion suffix v
    → (d : Dialect) × (resolve_version (str v) (current_version suffix) (legacy_version suffix)
        ≡ some d)
      × (version_of suffix d ≡ v)
unfolding resolve_version
resolve-HasVersion suffix v (inl e) = (current, rw (e, str_eq_refl suffix), sym e)
resolve-HasVersion suffix v (inr e) = (legacy, rw (e, str_eq_refl suffix), sym e)

-- A plain object that begins with a supported version and has exactly the keys asked for passes.
pub expect_schema-object :
    (suffix : Str) (required_keys binding_keys : List Str) (v : Str) (rest : Fields)
    → HasVersion suffix v
    → only_data rest ≡ true
    → only_known (codes "schemaVersion" ∷ required_keys) rest ≡ true
    → require_keys binding_keys required_keys (property (codes "schemaVersion") (str v) rest)
      ≡ ok tt
    → expect_schema suffix required_keys binding_keys
        (object (property (codes "schemaVersion") (str v) rest))
      ≡ ok (property (codes "schemaVersion") (str v) rest, v)
unfolding expect_schema expect_exact_schema
expect_schema-object suffix required_keys binding_keys v rest h data_ known present =
    let (d, e, same) = resolve-HasVersion suffix v h in rw (data_, e, known, present) (rw same)

data_object_lem : (fs gs : Fields) → expect_data_object (object fs) ≡ ok gs → fs ≡ gs
unfolding expect_data_object
data_object_lem fs gs h = ground arith

-- A plain object that has the schema is read with its own properties.
pub expect_schema-fields :
    (suffix : Str) (required_keys binding_keys : List Str) (fs gs : Fields) (v : Str)
    → expect_schema suffix required_keys binding_keys (object fs) ≡ ok (gs, v)
    → fs ≡ gs
unfolding expect_schema expect_exact_schema
expect_schema-fields suffix required_keys binding_keys fs gs v h =
    let ((hs, dialect), e, h1) =
      bind_parts
        (expect_exact_schema (object fs) (current_version suffix) (legacy_version suffix)
          required_keys binding_keys)
        _ h in
    let (data_, f, h2) = bind_parts (expect_data_object (object fs)) _ e in
    let (k1, h3) =
      >>-eq-ok (require (has_own (codes "schemaVersion") data_) (protocol malformed_object)) _ h2 in
    let (found, g, h4) =
      bind_parts
        (or_throw
          (resolve_version (get (codes "schemaVersion") data_) (current_version suffix)
            (legacy_version suffix))
          (protocol unsupported_version))
        _ h3 in
    let (k2, h5) =
      >>-eq-ok
        (require (only_known (codes "schemaVersion" ∷ required_keys) data_)
          (protocol malformed_object))
        _ h4 in
    let (k3, h6) = >>-eq-ok (require_keys binding_keys required_keys data_) _ h5 in
    data_object_lem fs data_ f ∙ ap (λ x. x.0) (ok-injective h6) ∙ ap (λ x. x.0) (ok-injective h1)
