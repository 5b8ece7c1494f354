-- ===== src/Domain/Bindings.antt =====
-- The checks that one record is bound to another (packages/domain/src/bindings.ts).
use rovaulta.Domain.ReleaseSchemas.{
  parse_clearance_record, parse_deployment_intent, parse_robot_build_descriptor,
  parse_safety_envelope_metadata,
}
use rovaulta.Domain.Schemas.{
  parse_evaluation_inputs, parse_evaluation_result, parse_evaluation_request, current_version,
}
use rovaulta.Domain.Value.{Value}
use rovaulta.Domain.Timestamps.{compare_unix_timestamps, is_after}
use rovaulta.Domain.Digests.{
  Platform, digest_evaluation_inputs, digest_clearance, digest_robot_build,
}
use rovaulta.Domain.Records.{
  EvaluationInputs, EvaluationResult, ClearanceRecord, DeploymentIntent, of_inputs, of_clearance,
  of_intent, of_robot_build, verdict_text,
}
use rovaulta.Errors.{
  Result, require, ◌>>◌, ◌>>=◌, protocol, binding_mismatch, digest_mismatch, reject, ok,
  invalid_expiry,
}
pub mod Clearance
pub mod Intent
pub mod Written
use Prim.Native.Nat.{Ordering}
use rovaulta.Prelude.{Str, Bool, str_eq, codes, true, false}

assert_binding : Str → Str → Result (Unit {0})
assert_binding actual expected = require (str_eq actual expected) (protocol binding_mismatch)

assert_digest : Str → Str → Result (Unit {0})
assert_digest actual expected = require (str_eq actual expected) (protocol digest_mismatch)

unfoldable pub assert_inputs : EvaluationInputs → EvaluationInputs → Result (Unit {0})
unfolding assert_binding assert_digest
assert_inputs actual expected = do
  assert_binding actual.site_id expected.site_id
  assert_binding actual.robot_id expected.robot_id
  assert_binding actual.robot_build_id expected.robot_build_id
  assert_digest actual.robot_build_digest expected.robot_build_digest
  assert_binding actual.safety_envelope_id expected.safety_envelope_id
  assert_digest actual.safety_envelope_commitment expected.safety_envelope_commitment
  assert_binding actual.evaluator_version expected.evaluator_version

-- `compareUnixTimestamps(left, right) < 0`
abbrev pub is_before : Str → Str → Bool
is_before left right = elim (compare_unix_timestamps left right) [ Ordering.lt ↦ true | _ ↦ false ]

-- The values that the caller of `createDeploymentIntent` chooses; the target is always "sepolia".
pub record DeploymentIntentParameters : Type 0 where
  pub nonce : Str
  pub issued_at : Str
  pub expires_at : Str

module _ (p : Platform) where
  unfoldable pub assert_evaluation_input_bindings : Value → Value → Value → Result EvaluationInputs
  unfolding assert_binding assert_digest
  assert_evaluation_input_bindings inputs_input build_input metadata_input = do
    inputs ← parse_evaluation_inputs inputs_input
    build ← parse_robot_build_descriptor build_input
    envelope ← parse_safety_envelope_metadata metadata_input
    assert_binding inputs.robot_id build.robot_id
    assert_binding inputs.robot_build_id build.robot_build_id
    build_digest ← digest_robot_build p (of_robot_build build)
    assert_digest inputs.robot_build_digest build_digest
    assert_binding inputs.site_id envelope.site_id
    assert_binding inputs.safety_envelope_id envelope.safety_envelope_id
    assert_digest inputs.safety_envelope_commitment envelope.safety_envelope_commitment
    ok inputs

  unfoldable pub assert_evaluation_result_bindings : Value → Value → Result EvaluationResult
  unfolding assert_binding assert_digest assert_inputs
  assert_evaluation_result_bindings result_input request_input = do
    result ← parse_evaluation_result result_input
    request ← parse_evaluation_request request_input
    assert_binding result.evaluation_id request.evaluation_id
    assert_inputs result.inputs request.inputs
    inputs_digest ← digest_evaluation_inputs p (of_inputs request.inputs)
    assert_digest result.evaluation_inputs_digest inputs_digest
    reject (is_before result.evaluated_at request.requested_at) (protocol binding_mismatch)
    ok result

  unfoldable pub assert_clearance_bindings : Value → Value → Result ClearanceRecord
  unfolding assert_binding assert_digest assert_inputs
  assert_clearance_bindings clearance_input result_input = do
    clearance ← parse_clearance_record clearance_input
    result ← parse_evaluation_result result_input
    result_digest ← digest_evaluation_inputs p (of_inputs result.inputs)
    assert_digest result.evaluation_inputs_digest result_digest
    clearance_digest ← digest_evaluation_inputs p (of_inputs clearance.inputs)
    assert_digest clearance.evaluation_inputs_digest clearance_digest
    assert_binding clearance.evaluation_id result.evaluation_id
    assert_inputs clearance.inputs result.inputs
    assert_digest clearance.evaluation_inputs_digest result.evaluation_inputs_digest
    assert_binding (codes "CLEAR") (verdict_text result.verdict)
    reject (is_before clearance.issued_at result.evaluated_at) (protocol binding_mismatch)
    ok clearance

  unfoldable pub assert_deployment_intent_bindings : Value → Value → Result DeploymentIntent
  unfolding assert_binding assert_digest
  assert_deployment_intent_bindings intent_input clearance_input = do
    intent ← parse_deployment_intent intent_input
    clearance ← parse_clearance_record clearance_input
    assert_binding intent.site_id clearance.inputs.site_id
    assert_binding intent.robot_id clearance.inputs.robot_id
    assert_binding intent.robot_build_id clearance.inputs.robot_build_id
    assert_digest intent.robot_build_digest clearance.inputs.robot_build_digest
    assert_binding intent.clearance_id clearance.clearance_id
    clearance_digest ← digest_clearance p (of_clearance clearance)
    assert_digest intent.clearance_digest clearance_digest
    reject (is_before intent.issued_at clearance.issued_at) (protocol binding_mismatch)
    reject (is_after (compare_unix_timestamps intent.expires_at clearance.expires_at))
        (protocol invalid_expiry)
    ok intent

  unfoldable pub create_deployment_intent :
      Value → DeploymentIntentParameters → Result DeploymentIntent
  unfolding assert_deployment_intent_bindings
  create_deployment_intent clearance_input parameters = do
    clearance ← parse_clearance_record clearance_input
    clearance_digest ← digest_clearance p (of_clearance clearance)
    intent ← parse_deployment_intent (
        of_intent (record {
          schema_version = current_version (codes "deployment-intent/v2");
          site_id = clearance.inputs.site_id;
          robot_id = clearance.inputs.robot_id;
          robot_build_id = clearance.inputs.robot_build_id;
          robot_build_digest = clearance.inputs.robot_build_digest;
          clearance_id = clearance.clearance_id;
          clearance_digest = clearance_digest;
          nonce = parameters.nonce;
          issued_at = parameters.issued_at;
          expires_at = parameters.expires_at;
        }))
    assert_deployment_intent_bindings (of_intent intent) (of_clearance clearance)
