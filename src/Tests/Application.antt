-- ===== src/Tests/Application.antt =====
-- A clearance of an evaluation.
use rovaulta.Application.Clearance.Created.{
  create_clearance_record_from_evaluation-IsClearanceFor, IsClearanceFor,
}
use rovaulta.Domain.Records.{clear}
use rovaulta.Errors.{ok}
use rovaulta.Prelude.Sort.{sort}
use rovaulta.Domain.Value.{expect_data_object, resolve_version, expect_exact_schema}
use rovaulta.Domain.Digests.{digest_frame, digest_evaluation_inputs}
use rovaulta.Domain.Canonical.{canonical_serialize, utf8_encode}
use rovaulta.Domain.Identifiers.{parse_identifier, parse_sha256_digest}
use rovaulta.Domain.Timestamps.{parse_expiry, compare_unix_timestamps, parse_unix_timestamp}
use rovaulta.Domain.Schemas.{
  parse_evaluation_result, expect_schema, parse_verdict, parse_evaluation_inputs,
}
use rovaulta.Domain.ReleaseSchemas.{parse_clearance_record}
use rovaulta.Domain.Bindings.{assert_clearance_bindings, assert_inputs}
use rovaulta.Application.Clearance.{
  PublicEvaluation, ClearanceParameters, create_clearance_record_from_evaluation,
}
use rovaulta.Tests.Records.{clearance}
use rovaulta.Tests.{digest, sample_inputs, platform, ok}
use rovaulta.Prelude.{◌≡◌, codes, refl, some, [], none}

abbrev evaluation : PublicEvaluation
evaluation = record {
  id = codes "evaluation:row";
  site_id = sample_inputs.site_id;
  robot_id = sample_inputs.robot_id;
  build_id = codes "build:row";
  evaluation_id = codes "evaluation:one";
  robot_build_id = sample_inputs.robot_build_id;
  verdict = clear;
  safety_envelope_id = sample_inputs.safety_envelope_id;
  evaluator_version = sample_inputs.evaluator_version;
  robot_build_digest = digest;
  safety_envelope_commitment = digest;
  evaluation_inputs_digest = digest;
  scenario_count = some 3;
  violation_count = some 0;
  reasons = [];
  evaluated_at = codes "1500";
  execution_mode = none;
  cre_cli_version = none;
}

abbrev parameters : ClearanceParameters
parameters = record {
  clearance_id = codes "clearance:c1";
  issued_at = codes "2000";
  expires_at = codes "9000";
}

created_lem : create_clearance_record_from_evaluation platform evaluation parameters ≡ ok clearance
unfolding create_clearance_record_from_evaluation assert_clearance_bindings parse_clearance_record
    parse_evaluation_result assert_inputs parse_expiry parse_identifier parse_sha256_digest
    compare_unix_timestamps parse_unix_timestamp canonical_serialize utf8_encode digest_frame
    digest_evaluation_inputs expect_schema parse_verdict parse_evaluation_inputs expect_data_object
    resolve_version expect_exact_schema sort
created_lem = refl

create_clearance_record_from_evaluation-IsClearanceFor_example :
    IsClearanceFor platform evaluation parameters clearance
create_clearance_record_from_evaluation-IsClearanceFor_example =
    create_clearance_record_from_evaluation-IsClearanceFor platform evaluation parameters clearance
      created_lem
