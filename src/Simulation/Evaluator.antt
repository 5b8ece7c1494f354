-- ===== src/Simulation/Evaluator.antt =====
-- The whole evaluation of one request (packages/simulation-core/src/evaluator.ts).
pub mod Compliance
pub mod Outcome
pub mod Clear
use rovaulta.Simulation.Values.{commitment_payload, of_generation}
use rovaulta.Domain.Timestamps.{parse_unix_timestamp}
use rovaulta.Simulation.Traces.{parse_robot_behavior_trace_suite}
use rovaulta.Simulation.Envelope.{parse_confidential_evaluation_envelope}
use rovaulta.Domain.Bindings.{assert_evaluation_result_bindings, assert_evaluation_input_bindings}
use rovaulta.Domain.ReleaseSchemas.{parse_safety_envelope_metadata, parse_robot_build_descriptor}
use rovaulta.Simulation.Parse.{expect_exact_object}
use rovaulta.Simulation.Scenarios.{generate_scenario_suite}
use rovaulta.Errors.{
  Result, ok, ◌>>=◌, or_throw, ◌>>◌, require, protocol, binding_mismatch, digest_mismatch,
  unsupported_version, malformed_object,
}
use rovaulta.Domain.Schemas.{
  is_legacy_version, parse_evaluation_request, parse_evaluation_result, current_version,
}
use rovaulta.Simulation.Rules.{RuleViolation, assert_trace_inside_warehouse, evaluate_scenario}
use rovaulta.Domain.Value.{Value, str, get}
use rovaulta.Domain.Digests.{
  in_namespace, Platform, digest_safety_envelope_commitment, digest_evaluation_inputs,
  digest_robot_build,
}
use rovaulta.Domain.Records.{
  Verdict, EvaluationResult, EvaluationRequest, clear, of_result, RobotBuildDescriptor, hold,
  of_inputs, of_envelope_metadata, of_request, of_robot_build,
}
use rovaulta.Simulation.Model.{
  RectangleMm, ConfidentialEvaluationEnvelope, GeneratedScenario, RobotBehaviorTrace,
  RobotBehaviorTraceSuite, ScenarioSuite,
}
use rovaulta.Prelude.{
  Str, ℕ, List, codes, ◌∷◌, length, Option, [], none, some, if◌then◌else◌, str_eq, any, ◌==◌, ◌++◌,
}

pub record ScenarioEvaluationSummary : Type 0 where
  pub scenario_id : Str
  pub verdict : Verdict
  pub violation_count : ℕ

pub record InternalEvaluationReport : Type 0 where
  pub schema_version : Str
  pub result : EvaluationResult
  pub scenario_count : ℕ
  pub violation_count : ℕ
  pub scenario_results : List ScenarioEvaluationSummary
  pub violations : List RuleViolation

-- `violations.length === 0 ? "CLEAR" : "HOLD"`
abbrev pub verdict_of : List RuleViolation → Verdict
verdict_of [] = clear
verdict_of (v ∷ vs) = hold

abbrev pub summary : GeneratedScenario → List RuleViolation → ScenarioEvaluationSummary
summary scenario vs = record {
  scenario_id = scenario.scenario_id;
  verdict = verdict_of vs;
  violation_count = length vs;
}

-- `tracesByScenario.get(id)` of a `Map` made of the traces: the last one wins.
abbrev pub trace_named : Str → List RobotBehaviorTrace → Option RobotBehaviorTrace
trace_named id [] = none
trace_named id (t ∷ ts) = elim (trace_named id ts) [
  | some found ↦ some found
  | none ↦ if str_eq t.scenario_id id then some t else none
]

-- The loop over the traces: each is of a scenario of the suite, and inside the warehouse.
unfoldable pub check_traces :
    List GeneratedScenario → RectangleMm → List RobotBehaviorTrace → Result (Unit {0})
check_traces scenarios bounds [] = ok tt
check_traces scenarios bounds (t ∷ ts) = do
  require (any (λ s. str_eq s.scenario_id t.scenario_id) scenarios) (protocol binding_mismatch)
  assert_trace_inside_warehouse t bounds
  check_traces scenarios bounds ts

-- The loop over the scenarios, with the summaries and the violations that it collects.
unfoldable pub evaluate_scenarios :
    ConfidentialEvaluationEnvelope
    → List RobotBehaviorTrace
    → List GeneratedScenario
    → Result (List ScenarioEvaluationSummary × List RuleViolation)
evaluate_scenarios envelope traces [] = ok ([], [])
evaluate_scenarios envelope traces (s ∷ ss) = do
  trace ← or_throw (trace_named s.scenario_id traces) (protocol binding_mismatch)
  vs ← evaluate_scenario s trace envelope envelope.zones
  (summaries, violations) ← evaluate_scenarios envelope traces ss
  ok (summary s vs ∷ summaries, vs ++ violations)

abbrev pub warehouse_evaluator_version : Str
warehouse_evaluator_version = codes "evaluator-version:warehouse-rules-v1"

abbrev pub evaluation_keys : List Str
evaluation_keys =
    codes "request"
    ∷ codes "robotBuild"
    ∷ codes "confidentialEnvelope"
    ∷ codes "envelopeBlindingSecret"
    ∷ codes "behaviorTraces"
    ∷ codes "evaluatedAt"
    ∷ []

-- `isLegacyVersion(version) ? legacy : current`
abbrev pub same_namespace : Str → Str → Str
same_namespace version suffix = in_namespace (is_legacy_version version) suffix

-- The suite of the envelope, and what the scenarios give on the traces that cover it.
unfoldable pub evaluate_suite :
    ConfidentialEvaluationEnvelope
    → RobotBehaviorTraceSuite
    → Result (ScenarioSuite × List ScenarioEvaluationSummary × List RuleViolation)
evaluate_suite envelope behavior = do
  suite ← generate_scenario_suite (of_generation envelope.scenario_generation)
  require (length behavior.traces == length suite.scenarios) (protocol binding_mismatch)
  check_traces suite.scenarios envelope.warehouse_bounds behavior.traces
  (summaries, violations) ← evaluate_scenarios envelope behavior.traces suite.scenarios
  ok (suite, summaries, violations)

module _ (p : Platform) where
  -- The checks that the request is about the given build, envelope and traces.
  unfoldable pub assert_evaluation_bindings :
      EvaluationRequest
      → RobotBuildDescriptor
      → ConfidentialEvaluationEnvelope
      → RobotBehaviorTraceSuite
      → List ℕ
      → Result (Unit {0})
  assert_evaluation_bindings request build envelope behavior blind = do
    commitment ←
        digest_safety_envelope_commitment p (str envelope.site_id) (str envelope.safety_envelope_id)
          (commitment_payload envelope) blind
    metadata ← parse_safety_envelope_metadata (
        of_envelope_metadata (record {
          schema_version = current_version (codes "safety-envelope-metadata/v1");
          site_id = envelope.site_id;
          safety_envelope_id = envelope.safety_envelope_id;
          safety_envelope_commitment = commitment;
        }))
    bound ←
        assert_evaluation_input_bindings p (of_inputs request.inputs) (of_robot_build build)
          (of_envelope_metadata metadata)
    build_digest ← digest_robot_build p (of_robot_build build)
    require (str_eq request.inputs.robot_build_digest build_digest) (protocol digest_mismatch)
    require (str_eq behavior.robot_id request.inputs.robot_id) (protocol binding_mismatch)
    require (str_eq behavior.robot_build_id request.inputs.robot_build_id)
        (protocol binding_mismatch)
    require (str_eq behavior.robot_build_digest request.inputs.robot_build_digest)
        (protocol digest_mismatch)

  -- The result record and the report around it.
  unfoldable pub report :
      EvaluationRequest
      → Str
      → ScenarioSuite
      → List ScenarioEvaluationSummary
      → List RuleViolation
      → Result InternalEvaluationReport
  report request evaluated_at suite summaries violations = do
    inputs_digest ← digest_evaluation_inputs p (of_inputs request.inputs)
    parsed ← parse_evaluation_result (
        of_result (record {
          schema_version = same_namespace request.schema_version (codes "evaluation-result/v1");
          evaluation_id = request.evaluation_id;
          inputs = request.inputs;
          evaluation_inputs_digest = inputs_digest;
          verdict = verdict_of violations;
          evaluated_at = evaluated_at;
        }))
    result ← assert_evaluation_result_bindings p (of_result parsed) (of_request request)
    ok (record {
      schema_version =
          same_namespace request.schema_version (codes "internal-evaluation-report/v1");
      result = result;
      scenario_count = length suite.scenarios;
      violation_count = length violations;
      scenario_results = summaries;
      violations = violations;
    })

  -- The second argument holds the bytes of the `Uint8Array` that `envelopeBlindingSecret` is, if it
  -- is one.
  unfoldable pub evaluate_simulation : Value → Option (List ℕ) → Result InternalEvaluationReport
  evaluate_simulation input secret = do
    raw ← expect_exact_object input evaluation_keys
    request ← parse_evaluation_request (get (codes "request") raw)
    build ← parse_robot_build_descriptor (get (codes "robotBuild") raw)
    envelope ← parse_confidential_evaluation_envelope (get (codes "confidentialEnvelope") raw)
    behavior ← parse_robot_behavior_trace_suite (get (codes "behaviorTraces") raw)
    evaluated_at ← parse_unix_timestamp (get (codes "evaluatedAt") raw)
    require (str_eq request.inputs.evaluator_version warehouse_evaluator_version)
        (protocol unsupported_version)
    blind ← or_throw secret (protocol malformed_object)
    require (length blind == 32) (protocol malformed_object)
    assert_evaluation_bindings request build envelope behavior blind
    (suite, summaries, violations) ← evaluate_suite envelope behavior
    report request evaluated_at suite summaries violations
