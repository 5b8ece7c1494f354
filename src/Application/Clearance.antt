-- ===== src/Application/Clearance.antt =====
-- The clearance of an evaluation that an account owns (apps/api/src/application/clearance.ts).
pub mod Created
use rovaulta.Domain.Records.{clear, hold, escalate}
use rovaulta.Domain.Bindings.{assert_clearance_bindings}
use rovaulta.Domain.ReleaseSchemas.{parse_clearance_record}
use rovaulta.Errors.{Result, ◌>>◌, require, application, conflict, ◌>>=◌}
use rovaulta.Domain.Schemas.{current_version, parse_evaluation_result}
use rovaulta.Domain.Digests.{Platform}
use rovaulta.Domain.Records.{Verdict, EvaluationResult, ClearanceRecord, of_result, of_clearance}
use rovaulta.Prelude.{Str, Option, Bool, ℕ, codes, true, List, false}

-- `PublicEvaluation` of apps/api/src/application/store.ts
pub record PublicEvaluation : Type 0 where
  pub id : Str
  pub site_id : Str
  pub robot_id : Str
  pub build_id : Str
  pub evaluation_id : Str
  pub robot_build_id : Str
  pub verdict : Verdict
  pub safety_envelope_id : Str
  pub evaluator_version : Str
  pub robot_build_digest : Str
  pub safety_envelope_commitment : Str
  pub evaluation_inputs_digest : Str
  pub scenario_count : Option ℕ
  pub violation_count : Option ℕ
  pub reasons : List Str
  pub evaluated_at : Str
  pub execution_mode : Option Str
  pub cre_cli_version : Option Str

pub record ClearanceParameters : Type 0 where
  pub clearance_id : Str
  pub issued_at : Str
  pub expires_at : Str

-- The evaluation as the object that `parseEvaluationResult` is given.
abbrev pub result_of : PublicEvaluation → EvaluationResult
result_of evaluation = record {
  schema_version = current_version (codes "evaluation-result/v1");
  evaluation_id = evaluation.evaluation_id;
  inputs = record {
    schema_version = current_version (codes "evaluation-inputs/v1");
    site_id = evaluation.site_id;
    robot_id = evaluation.robot_id;
    robot_build_id = evaluation.robot_build_id;
    robot_build_digest = evaluation.robot_build_digest;
    safety_envelope_id = evaluation.safety_envelope_id;
    safety_envelope_commitment = evaluation.safety_envelope_commitment;
    evaluator_version = evaluation.evaluator_version;
  };
  evaluation_inputs_digest = evaluation.evaluation_inputs_digest;
  verdict = evaluation.verdict;
  evaluated_at = evaluation.evaluated_at;
}

-- The object that `parseClearanceRecord` is given.
abbrev pub clearance_of : EvaluationResult → ClearanceParameters → ClearanceRecord
clearance_of result input = record {
  schema_version = current_version (codes "clearance-record/v1");
  clearance_id = input.clearance_id;
  evaluation_id = result.evaluation_id;
  inputs = result.inputs;
  evaluation_inputs_digest = result.evaluation_inputs_digest;
  issued_at = input.issued_at;
  expires_at = input.expires_at;
}

abbrev pub is_clear_verdict : Verdict → Bool
is_clear_verdict clear = true
is_clear_verdict hold = false
is_clear_verdict escalate = false

unfoldable pub create_clearance_record_from_evaluation :
    Platform → PublicEvaluation → ClearanceParameters → Result ClearanceRecord
create_clearance_record_from_evaluation p evaluation input = do
  require (is_clear_verdict evaluation.verdict) (application conflict)
  result ← parse_evaluation_result (of_result (result_of evaluation))
  clearance ← parse_clearance_record (of_clearance (clearance_of result input))
  assert_clearance_bindings p (of_clearance clearance) (of_result result)
