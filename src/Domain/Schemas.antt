-- ===== src/Domain/Schemas.antt =====
-- The parsers of the protocol's records (packages/domain/src/schemas.ts).
use rovaulta.Domain.Timestamps.{parse_unix_timestamp}
use rovaulta.Domain.Identifiers.{
  parse_site_id, parse_robot_id, parse_robot_build_id, parse_sha256_digest,
  parse_safety_envelope_id, parse_evaluator_version_id, parse_evaluation_id,
}
use rovaulta.Domain.Records.{
  Verdict, EvaluationInputs, clear, hold, escalate, EvaluationRequest, EvaluationResult,
}
use rovaulta.Errors.{Result, ok, fail_protocol, malformed_object, ◌>>=◌}
use rovaulta.Domain.Value.{Value, Dialect, Fields, str, current, legacy, expect_exact_schema, get}
pub mod Exact
pub mod Inputs
use rovaulta.Prelude.{
  Str, List, codes, Bool, ◌++◌, starts_with, ◌∷◌, if◌then◌else◌, str_eq, [], false,
}

-- `legacy(suffix)` of packages/domain/src/compatibility.ts: the retired namespace.
abbrev pub legacy_version : Str → Str
legacy_version suffix = codes "preflight." ++ suffix

abbrev pub current_version : Str → Str
current_version suffix = codes "rovaulta." ++ suffix

-- `isLegacyVersion`, of a string
abbrev pub is_legacy_version : Str → Bool
is_legacy_version v = starts_with (codes "preflight.") v

-- The schema version that a parser writes out for the dialect that it read.
abbrev pub version_of : Str → Dialect → Str
version_of suffix current = current_version suffix
version_of suffix legacy = legacy_version suffix

-- `expectExactSchema` with the two versions of one schema.
unfoldable pub expect_schema : Str → List Str → List Str → Value → Result (Fields × Str)
expect_schema suffix required_keys binding_keys input = do
  (fs, dialect) ←
      expect_exact_schema input (current_version suffix) (legacy_version suffix) required_keys
        binding_keys
  ok (fs, version_of suffix dialect)

unfoldable pub parse_verdict : Value → Result Verdict
parse_verdict (str s) =
    if str_eq s (codes "CLEAR")
    then ok clear
    else if str_eq s (codes "HOLD")
    then ok hold
    else if str_eq s (codes "ESCALATE")
    then ok escalate
    else fail_protocol malformed_object
parse_verdict _ = fail_protocol malformed_object

-- `value === text`
abbrev pub is_text : Value → Str → Bool
is_text (str s) t = str_eq s t
is_text _ t = false

abbrev pub input_bindings : List Str
input_bindings =
    codes "siteId"
    ∷ codes "robotId"
    ∷ codes "robotBuildId"
    ∷ codes "robotBuildDigest"
    ∷ codes "safetyEnvelopeId"
    ∷ codes "safetyEnvelopeCommitment"
    ∷ codes "evaluatorVersion"
    ∷ []

unfoldable pub parse_evaluation_inputs : Value → Result EvaluationInputs
parse_evaluation_inputs input = do
  (fs, version) ← expect_schema (codes "evaluation-inputs/v1") input_bindings input_bindings input
  site ← parse_site_id (get (codes "siteId") fs)
  robot ← parse_robot_id (get (codes "robotId") fs)
  build ← parse_robot_build_id (get (codes "robotBuildId") fs)
  digest ← parse_sha256_digest (get (codes "robotBuildDigest") fs)
  envelope ← parse_safety_envelope_id (get (codes "safetyEnvelopeId") fs)
  commitment ← parse_sha256_digest (get (codes "safetyEnvelopeCommitment") fs)
  evaluator ← parse_evaluator_version_id (get (codes "evaluatorVersion") fs)
  ok (record {
    schema_version = version;
    site_id = site;
    robot_id = robot;
    robot_build_id = build;
    robot_build_digest = digest;
    safety_envelope_id = envelope;
    safety_envelope_commitment = commitment;
    evaluator_version = evaluator;
  })

unfoldable pub parse_evaluation_request : Value → Result EvaluationRequest
parse_evaluation_request input = do
  (fs, version) ←
      expect_schema (codes "evaluation-request/v1")
        (codes "evaluationId" ∷ codes "inputs" ∷ codes "requestedAt" ∷ [])
        (codes "evaluationId" ∷ codes "inputs" ∷ []) input
  evaluation ← parse_evaluation_id (get (codes "evaluationId") fs)
  inputs ← parse_evaluation_inputs (get (codes "inputs") fs)
  requested_at ← parse_unix_timestamp (get (codes "requestedAt") fs)
  ok (record {
    schema_version = version;
    evaluation_id = evaluation;
    inputs = inputs;
    requested_at = requested_at;
  })

abbrev pub result_bindings : List Str
result_bindings =
    codes "evaluationId" ∷ codes "inputs" ∷ codes "evaluationInputsDigest" ∷ codes "verdict" ∷ []

unfoldable pub parse_evaluation_result : Value → Result EvaluationResult
parse_evaluation_result input = do
  (fs, version) ←
      expect_schema (codes "evaluation-result/v1") (result_bindings ++ codes "evaluatedAt" ∷ [])
        result_bindings input
  evaluation ← parse_evaluation_id (get (codes "evaluationId") fs)
  inputs ← parse_evaluation_inputs (get (codes "inputs") fs)
  digest ← parse_sha256_digest (get (codes "evaluationInputsDigest") fs)
  verdict ← parse_verdict (get (codes "verdict") fs)
  evaluated_at ← parse_unix_timestamp (get (codes "evaluatedAt") fs)
  ok (record {
    schema_version = version;
    evaluation_id = evaluation;
    inputs = inputs;
    evaluation_inputs_digest = digest;
    verdict = verdict;
    evaluated_at = evaluated_at;
  })
