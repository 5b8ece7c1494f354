-- ===== src/Domain/ReleaseSchemas/Clearance.antt =====
-- Clearance records: their parser accepts exactly the valid ones.
use mathlib.Core.Path.{subst}
use rovaulta.Domain.Identifiers.{parse_clearance_id, parse_evaluation_id, parse_sha256_digest}
use rovaulta.Domain.ReleaseSchemas.Intent.{parse_expiry-str}
use rovaulta.Domain.Timestamps.{to_number, parse_unix_timestamp, parse_expiry}
use rovaulta.Domain.Timestamps.Accepts.{IsTimestamp, parse_unix_timestamp_iff, parse_expiry_iff}
use rovaulta.Domain.Schemas.{expect_schema, is_text, parse_evaluation_inputs}
use rovaulta.Domain.Identifiers.Digests.{IsSha256, parse_sha256_digest-str, sha256}
use rovaulta.Domain.Schemas.Inputs.{
  IsValidInputs, parse_evaluation_inputs-of_inputs, parse_evaluation_inputs-IsValidInputs,
}
use rovaulta.Errors.{ok, bind_parts, >>-eq-ok, require, protocol, ok-injective}
use rovaulta.Domain.Identifiers.Accepts.{IsIdentifier, parse_identifier-str, identifier}
use rovaulta.Domain.Value.{Value, str, get}
use rovaulta.Domain.Schemas.Exact.{HasVersion, expect_schema-object, expect_schema-HasVersion}
use rovaulta.Domain.ReleaseSchemas.{
  parse_clearance_record, Value, codes, ok, expect_schema, clearance_keys, clearance_bindings,
  require, is_text, get, protocol, malformed_object, parse_unix_timestamp, parse_clearance_id,
  parse_evaluation_inputs, parse_expiry,
}
use rovaulta.Domain.Records.{ClearanceRecord, of_clearance}
use rovaulta.Prelude.{◌≡◌, codes, ◌<◌, arith, refl}

pub record IsValidClearance (c : ClearanceRecord) : Type 0 where
  pub version : HasVersion (codes "clearance-record/v1") c.schema_version
  pub clearance : IsIdentifier (codes "clearance") c.clearance_id
  pub evaluation : IsIdentifier (codes "evaluation") c.evaluation_id
  pub inputs : IsValidInputs c.inputs
  pub digest : IsSha256 c.evaluation_inputs_digest
  pub issued : IsTimestamp c.issued_at
  pub expires : IsTimestamp c.expires_at
  pub in_order : to_number c.issued_at < to_number c.expires_at

-- Of whatever value, what `parseClearanceRecord` returns has a supported schema version, the two
-- identifiers, valid evaluation inputs, a canonical digest, and two timestamps of which the expiry
-- is the later.
pub parse_clearance_record-IsValidClearance :
    (v : Value) (c : ClearanceRecord) → parse_clearance_record v ≡ ok c → IsValidClearance c
unfolding parse_clearance_record
parse_clearance_record-IsValidClearance v c h =
    let ((fs, version), e, h1) =
      bind_parts (expect_schema (codes "clearance-record/v1") clearance_keys clearance_bindings v) _
        h in
    let (k1, h2) =
      >>-eq-ok
        (require (is_text (get (codes "verdict") fs) (codes "CLEAR")) (protocol malformed_object)) _
        h1 in
    let (issued_at, e1, h3) = bind_parts (parse_unix_timestamp (get (codes "issuedAt") fs)) _ h2 in
    let (clearance, e2, h4) = bind_parts (parse_clearance_id (get (codes "clearanceId") fs)) _ h3 in
    let (evaluation, e3, h5) =
      bind_parts (parse_evaluation_id (get (codes "evaluationId") fs)) _ h4 in
    let (inputs, e4, h6) = bind_parts (parse_evaluation_inputs (get (codes "inputs") fs)) _ h5 in
    let (digest, e5, h7) =
      bind_parts (parse_sha256_digest (get (codes "evaluationInputsDigest") fs)) _ h6 in
    let (expires_at, e6, h8) =
      bind_parts (parse_expiry (get (codes "expiresAt") fs) issued_at) _ h7 in
    let f1 = (parse_unix_timestamp_iff _ _).0 e1 in
    let f6 = ((parse_expiry_iff (get (codes "expiresAt") fs) issued_at f1.1.0).0 expires_at).0 e6 in
    let d : ClearanceRecord = record {
      schema_version = version;
      clearance_id = clearance;
      evaluation_id = evaluation;
      inputs = inputs;
      evaluation_inputs_digest = digest;
      issued_at = issued_at;
      expires_at = expires_at;
    } in
    let valid : IsValidClearance d = record {
      version = expect_schema-HasVersion _ _ _ _ e;
      clearance = identifier (codes "clearance") _ (omega arith) e2;
      evaluation = identifier (codes "evaluation") _ (omega arith) e3;
      inputs = parse_evaluation_inputs-IsValidInputs _ inputs e4;
      digest = sha256 _ e5;
      issued = f1.1;
      expires = f6.1;
      in_order = f6.2;
    } in
    subst IsValidClearance (ok-injective h8) valid

-- A clearance that is valid in this sense, written out as a plain object, is read back unchanged.
pub parse_clearance_record-of_clearance :
    (c : ClearanceRecord) → IsValidClearance c → parse_clearance_record (of_clearance c) ≡ ok c
unfolding parse_clearance_record
parse_clearance_record-of_clearance c h = rw (
  expect_schema-object (codes "clearance-record/v1") clearance_keys clearance_bindings
      c.schema_version _ h.version refl refl refl,
  (parse_unix_timestamp_iff (str c.issued_at) c.issued_at).1 (refl, h.issued),
  parse_identifier-str (codes "clearance") c.clearance_id (omega arith) h.clearance,
  parse_identifier-str (codes "evaluation") c.evaluation_id (omega arith) h.evaluation,
  parse_evaluation_inputs-of_inputs c.inputs h.inputs,
  parse_sha256_digest-str c.evaluation_inputs_digest h.digest,
  parse_expiry-str c.expires_at c.issued_at h.issued h.expires h.in_order,
)
