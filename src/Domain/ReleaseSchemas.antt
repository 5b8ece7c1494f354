-- ===== src/Domain/ReleaseSchemas.antt =====
-- The parsers of build descriptors, envelope metadata, clearances and deployment intents
-- (packages/domain/src/schemas.ts).
pub mod Intent
pub mod Clearance
use rovaulta.Domain.Timestamps.{parse_unix_timestamp, parse_expiry}
use rovaulta.Domain.Identifiers.{
  parse_robot_id, parse_site_id, parse_robot_build_id, parse_safety_envelope_id,
  parse_sha256_digest, parse_clearance_id, parse_evaluation_id, parse_deployment_nonce,
}
use rovaulta.Domain.Schemas.{expect_schema, is_text, parse_evaluation_inputs}
use rovaulta.Domain.Records.{
  RobotBuildDescriptor, SafetyEnvelopeMetadata, ClearanceRecord, DeploymentIntent, object,
}
use rovaulta.Errors.{Result, ◌>>=◌, ◌>>◌, require, protocol, ok, malformed_object}
use rovaulta.Domain.Value.{Fields, Value, expect_exact_schema, expect_data_object, get}
use rovaulta.Prelude.{Str, List, codes, ◌++◌, ◌∷◌, [], if◌then◌else◌, some, none}

-- `candidate.schemaVersion === SOURCE_ROBOT_BUILD_SCHEMA_VERSION`
abbrev pub source_build_version : Str
source_build_version = codes "rovaulta.robot-build/v2"

abbrev pub build_bindings : List Str
build_bindings = codes "robotId" ∷ codes "robotBuildId" ∷ codes "artifactDigest" ∷ []

parse_source_build : Fields → Result RobotBuildDescriptor
parse_source_build candidate = do
  let keys = build_bindings ++ codes "buildIntegrityDigest" ∷ []
  (fs, _) ←
      expect_exact_schema (object candidate) source_build_version source_build_version keys keys
  robot ← parse_robot_id (get (codes "robotId") fs)
  build ← parse_robot_build_id (get (codes "robotBuildId") fs)
  artifact ← parse_sha256_digest (get (codes "artifactDigest") fs)
  integrity ← parse_sha256_digest (get (codes "buildIntegrityDigest") fs)
  ok (record {
    schema_version = source_build_version;
    robot_id = robot;
    robot_build_id = build;
    artifact_digest = artifact;
    build_integrity_digest = some integrity;
  })

parse_plain_build : Value → Result RobotBuildDescriptor
parse_plain_build input = do
  (fs, version) ← expect_schema (codes "robot-build/v1") build_bindings build_bindings input
  robot ← parse_robot_id (get (codes "robotId") fs)
  build ← parse_robot_build_id (get (codes "robotBuildId") fs)
  artifact ← parse_sha256_digest (get (codes "artifactDigest") fs)
  ok (record {
    schema_version = version;
    robot_id = robot;
    robot_build_id = build;
    artifact_digest = artifact;
    build_integrity_digest = none;
  })

unfoldable pub parse_robot_build_descriptor : Value → Result RobotBuildDescriptor
unfolding parse_source_build parse_plain_build
parse_robot_build_descriptor input = do
  candidate ← expect_data_object input
  if is_text (get (codes "schemaVersion") candidate) source_build_version
      then parse_source_build candidate
      else parse_plain_build input

abbrev pub metadata_bindings : List Str
metadata_bindings =
    codes "siteId" ∷ codes "safetyEnvelopeId" ∷ codes "safetyEnvelopeCommitment" ∷ []

unfoldable pub parse_safety_envelope_metadata : Value → Result SafetyEnvelopeMetadata
parse_safety_envelope_metadata input = do
  (fs, version) ←
      expect_schema (codes "safety-envelope-metadata/v1") metadata_bindings metadata_bindings input
  site ← parse_site_id (get (codes "siteId") fs)
  envelope ← parse_safety_envelope_id (get (codes "safetyEnvelopeId") fs)
  commitment ← parse_sha256_digest (get (codes "safetyEnvelopeCommitment") fs)
  ok (record {
    schema_version = version;
    site_id = site;
    safety_envelope_id = envelope;
    safety_envelope_commitment = commitment;
  })

abbrev pub clearance_keys : List Str
clearance_keys =
    codes "clearanceId"
    ∷ codes "evaluationId"
    ∷ codes "inputs"
    ∷ codes "evaluationInputsDigest"
    ∷ codes "verdict"
    ∷ codes "issuedAt"
    ∷ codes "expiresAt"
    ∷ []

abbrev pub clearance_bindings : List Str
clearance_bindings =
    codes "clearanceId"
    ∷ codes "evaluationId"
    ∷ codes "inputs"
    ∷ codes "evaluationInputsDigest"
    ∷ codes "verdict"
    ∷ codes "expiresAt"
    ∷ []

unfoldable pub parse_clearance_record : Value → Result ClearanceRecord
parse_clearance_record input = do
  (fs, version) ←
      expect_schema (codes "clearance-record/v1") clearance_keys clearance_bindings input
  require (is_text (get (codes "verdict") fs) (codes "CLEAR")) (protocol malformed_object)
  issued_at ← parse_unix_timestamp (get (codes "issuedAt") fs)
  clearance ← parse_clearance_id (get (codes "clearanceId") fs)
  evaluation ← parse_evaluation_id (get (codes "evaluationId") fs)
  inputs ← parse_evaluation_inputs (get (codes "inputs") fs)
  digest ← parse_sha256_digest (get (codes "evaluationInputsDigest") fs)
  expires_at ← parse_expiry (get (codes "expiresAt") fs) issued_at
  ok (record {
    schema_version = version;
    clearance_id = clearance;
    evaluation_id = evaluation;
    inputs = inputs;
    evaluation_inputs_digest = digest;
    issued_at = issued_at;
    expires_at = expires_at;
  })

abbrev pub intent_bindings : List Str
intent_bindings =
    codes "action"
    ∷ codes "siteId"
    ∷ codes "robotId"
    ∷ codes "robotBuildId"
    ∷ codes "robotBuildDigest"
    ∷ codes "clearanceId"
    ∷ codes "clearanceDigest"
    ∷ []

abbrev pub intent_keys : List Str
intent_keys =
    intent_bindings
    ++ codes "targetEnvironment" ∷ codes "nonce" ∷ codes "issuedAt" ∷ codes "expiresAt" ∷ []

unfoldable pub parse_deployment_intent : Value → Result DeploymentIntent
parse_deployment_intent input = do
  (fs, version) ← expect_schema (codes "deployment-intent/v2") intent_keys intent_bindings input
  require (is_text (get (codes "action") fs) (codes "ACTIVATE_DEPLOYMENT"))
      (protocol malformed_object)
  require (is_text (get (codes "targetEnvironment") fs) (codes "sepolia"))
      (protocol malformed_object)
  issued_at ← parse_unix_timestamp (get (codes "issuedAt") fs)
  site ← parse_site_id (get (codes "siteId") fs)
  robot ← parse_robot_id (get (codes "robotId") fs)
  build ← parse_robot_build_id (get (codes "robotBuildId") fs)
  digest ← parse_sha256_digest (get (codes "robotBuildDigest") fs)
  clearance ← parse_clearance_id (get (codes "clearanceId") fs)
  clearance_digest ← parse_sha256_digest (get (codes "clearanceDigest") fs)
  nonce ← parse_deployment_nonce (get (codes "nonce") fs)
  expires_at ← parse_expiry (get (codes "expiresAt") fs) issued_at
  ok (record {
    schema_version = version;
    site_id = site;
    robot_id = robot;
    robot_build_id = build;
    robot_build_digest = digest;
    clearance_id = clearance;
    clearance_digest = clearance_digest;
    nonce = nonce;
    issued_at = issued_at;
    expires_at = expires_at;
  })
