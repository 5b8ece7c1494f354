-- ===== src/Tests/Records.antt =====
-- The parsers of the protocol's records on concrete texts, and one intent bound to its clearance.
use rovaulta.Domain.Bindings.Clearance.{IsClearanceOf, clearance_bindings_sound}
use rovaulta.Prelude.Sort.{sort}
use rovaulta.Domain.Timestamps.Accepts.{IsTimestamp, parse_unix_timestamp_iff, parse_expiry_iff}
use rovaulta.Domain.Identifiers.Digests.{
  IsSha256, IsNonce, parse_sha256_digest_iff, parse_deployment_nonce_iff,
}
use rovaulta.Domain.Identifiers.Accepts.{IsIdentifier, parse_identifier_iff}
use rovaulta.Domain.Bindings.Intent.{IsBoundTo, intent_bindings_sound}
use rovaulta.Domain.Canonical.{canonical_serialize, utf8_encode}
use rovaulta.Errors.{ok, Failure, err, protocol, invalid_expiry}
use rovaulta.Domain.Digests.{digest_clearance, digest_frame, digest_evaluation_inputs}
use rovaulta.Domain.Value.{str, expect_data_object, resolve_version, expect_exact_schema}
use rovaulta.Tests.{sample_inputs, digest, ok, platform}
use rovaulta.Domain.ReleaseSchemas.{parse_deployment_intent, parse_clearance_record}
use rovaulta.Domain.Timestamps.Order.{IsDecimal, compare_unix_timestamps_lem}
use rovaulta.Domain.Timestamps.{
  parse_unix_timestamp, compare_unix_timestamps, parse_expiry, to_number,
}
use rovaulta.Domain.Schemas.{
  parse_evaluation_inputs, expect_schema, parse_verdict, parse_evaluation_result,
}
use rovaulta.Domain.Schemas.Inputs.{
  IsValidInputs, parse_evaluation_inputs-IsValidInputs, parse_evaluation_inputs-of_inputs,
}
use rovaulta.Domain.Identifiers.{parse_identifier, parse_sha256_digest, parse_deployment_nonce}
use rovaulta.Domain.Bindings.{
  assert_deployment_intent_bindings, assert_clearance_bindings, assert_inputs,
}
use rovaulta.Domain.Records.{
  ClearanceRecord, DeploymentIntent, of_inputs, of_intent, of_clearance, EvaluationResult, clear,
  of_result,
}
use Prim.Native.Nat.{compare}
use rovaulta.Prelude.{Str, codes, ◌≡◌, ◌↔◌, refl, arith, ◌<◌, inl}

abbrev pub clearance : ClearanceRecord
clearance = record {
  schema_version = codes "rovaulta.clearance-record/v1";
  clearance_id = codes "clearance:c1";
  evaluation_id = codes "evaluation:one";
  inputs = sample_inputs;
  evaluation_inputs_digest = digest;
  issued_at = codes "2000";
  expires_at = codes "9000";
}

abbrev pub intent : DeploymentIntent
intent = record {
  schema_version = codes "rovaulta.deployment-intent/v2";
  site_id = codes "site:alpha";
  robot_id = codes "robot:r1";
  robot_build_id = codes "robot-build:b1";
  robot_build_digest = digest;
  clearance_id = codes "clearance:c1";
  clearance_digest = digest;
  nonce = codes "0123456789abcdef";
  issued_at = codes "3000";
  expires_at = codes "4000";
}

intent_lem :
    assert_deployment_intent_bindings platform (of_intent intent) (of_clearance clearance)
    ≡ ok intent
unfolding assert_deployment_intent_bindings parse_deployment_intent parse_clearance_record
    digest_clearance parse_deployment_nonce parse_expiry parse_identifier parse_sha256_digest
    compare_unix_timestamps parse_unix_timestamp canonical_serialize utf8_encode digest_frame
    digest_evaluation_inputs expect_schema parse_verdict parse_evaluation_inputs expect_data_object
    resolve_version expect_exact_schema sort
intent_lem = refl

intent_bindings_sound_example :
    (c : ClearanceRecord) × (parse_deployment_intent (of_intent intent) ≡ ok intent)
    × (parse_clearance_record (of_clearance clearance) ≡ ok c)
    × IsBoundTo platform intent c
intent_bindings_sound_example =
    intent_bindings_sound platform (of_intent intent) (of_clearance clearance) intent intent_lem

inputs_lem : parse_evaluation_inputs (of_inputs sample_inputs) ≡ ok sample_inputs
unfolding parse_identifier parse_sha256_digest expect_schema parse_evaluation_inputs
    expect_data_object resolve_version expect_exact_schema
inputs_lem = refl

parse_evaluation_inputs-IsValidInputs_example : IsValidInputs sample_inputs
parse_evaluation_inputs-IsValidInputs_example =
    parse_evaluation_inputs-IsValidInputs (of_inputs sample_inputs) sample_inputs inputs_lem

abbrev sample_valid : IsValidInputs sample_inputs
sample_valid =
    parse_evaluation_inputs-IsValidInputs (of_inputs sample_inputs) sample_inputs inputs_lem

parse_evaluation_inputs-of_inputs_example :
    parse_evaluation_inputs (of_inputs sample_inputs) ≡ ok sample_inputs
parse_evaluation_inputs-of_inputs_example =
    parse_evaluation_inputs-of_inputs sample_inputs sample_valid

parse_identifier_iff_example :
    (parse_identifier (codes "site") (str (codes "site:alpha")) ≡ ok (codes "site:alpha")) ↔ (
      (str (codes "site:alpha") ≡ str (codes "site:alpha"))
      × IsIdentifier (codes "site") (codes "site:alpha"))
parse_identifier_iff_example =
    parse_identifier_iff (codes "site") (str (codes "site:alpha")) (codes "site:alpha")
      (omega arith)

parse_sha256_digest_iff_example :
    (parse_sha256_digest (str digest) ≡ ok digest) ↔ ((str digest ≡ str digest) × IsSha256 digest)
parse_sha256_digest_iff_example = parse_sha256_digest_iff (str digest) digest

parse_deployment_nonce_iff_example :
    (parse_deployment_nonce (str intent.nonce) ≡ ok intent.nonce)
    ↔ ((str intent.nonce ≡ str intent.nonce) × IsNonce intent.nonce)
parse_deployment_nonce_iff_example = parse_deployment_nonce_iff (str intent.nonce) intent.nonce

parse_unix_timestamp_iff_example :
    (parse_unix_timestamp (str (codes "1000")) ≡ ok (codes "1000"))
    ↔ ((str (codes "1000") ≡ str (codes "1000")) × IsTimestamp (codes "1000"))
parse_unix_timestamp_iff_example = parse_unix_timestamp_iff (str (codes "1000")) (codes "1000")

thousand : IsDecimal (codes "1000")
thousand = (refl, inl (omega arith))

ninety : IsDecimal (codes "90")
ninety = (refl, inl (omega arith))

compare_unix_timestamps_lem_example :
    compare_unix_timestamps (codes "90") (codes "1000") ≡ compare 90 1000
compare_unix_timestamps_lem_example =
    compare_unix_timestamps_lem (codes "90") (codes "1000") ninety thousand

parse_expiry_iff_example :
    ((r : Str)
      → (parse_expiry (str (codes "2000")) (codes "1000") ≡ ok r)
        ↔ ((str (codes "2000") ≡ str r) × IsTimestamp r × (to_number (codes "1000") < to_number r)))
    × ((e : Failure)
        → parse_expiry (str (codes "2000")) (codes "1000") ≡ err e
        → e ≡ protocol invalid_expiry)
parse_expiry_iff_example = parse_expiry_iff (str (codes "2000")) (codes "1000") thousand

abbrev result : EvaluationResult
result = record {
  schema_version = codes "rovaulta.evaluation-result/v1";
  evaluation_id = codes "evaluation:one";
  inputs = sample_inputs;
  evaluation_inputs_digest = digest;
  verdict = clear;
  evaluated_at = codes "1500";
}

clearance_lem :
    assert_clearance_bindings platform (of_clearance clearance) (of_result result) ≡ ok clearance
unfolding assert_clearance_bindings parse_clearance_record parse_evaluation_result assert_inputs
    parse_expiry parse_identifier parse_sha256_digest compare_unix_timestamps parse_unix_timestamp
    canonical_serialize utf8_encode digest_frame digest_evaluation_inputs expect_schema
    parse_verdict parse_evaluation_inputs expect_data_object resolve_version expect_exact_schema
    sort
clearance_lem = refl

clearance_bindings_sound_example :
    (r : EvaluationResult) × (parse_clearance_record (of_clearance clearance) ≡ ok clearance)
    × (parse_evaluation_result (of_result result) ≡ ok r)
    × IsClearanceOf platform clearance r
clearance_bindings_sound_example =
    clearance_bindings_sound platform (of_clearance clearance) (of_result result) clearance
      clearance_lem
