-- ===== src/Simulation/Evaluator/Clear.antt =====
-- The verdict that `evaluateSimulation` reports.
use rovaulta.Domain.Timestamps.{parse_unix_timestamp}
use rovaulta.Simulation.Values.{of_generation}
use rovaulta.Simulation.Traces.{parse_robot_behavior_trace_suite}
use rovaulta.Simulation.Scenarios.{generate_scenario_suite}
use rovaulta.Domain.Schemas.{parse_evaluation_result, parse_evaluation_request}
use rovaulta.Simulation.Envelope.{parse_confidential_evaluation_envelope, names_known_zone}
use rovaulta.Simulation.Rules.{RuleViolation}
use rovaulta.Errors.{ok, Result-cases, err}
use rovaulta.Simulation.Parse.{expect_exact_object}
use rovaulta.Domain.Records.{
  EvaluationResult, EvaluationRequest, of_result, of_inputs, clear, of_request,
}
use rovaulta.Simulation.Model.{
  ConfidentialEvaluationEnvelope, RobotBehaviorTraceSuite, ScenarioSuite,
}
use rovaulta.Domain.Digests.{Platform, digest_evaluation_inputs}
use rovaulta.Domain.Value.{Value, Fields, get}
use rovaulta.Simulation.Evaluator.{
  report, evaluate_suite, evaluate_simulation, Platform, ConfidentialEvaluationEnvelope,
  InternalEvaluationReport, EvaluationResult, EvaluationRequest, RobotBehaviorTraceSuite,
  ScenarioSuite, ScenarioEvaluationSummary, expect_exact_object, ok, RuleViolation, evaluation_keys,
  verdict_of, parse_confidential_evaluation_envelope, parse_evaluation_result,
  generate_scenario_suite, parse_robot_behavior_trace_suite, of_generation, same_namespace,
  evaluate_scenarios, parse_unix_timestamp,
}
use rovaulta.Domain.Bindings.{assert_evaluation_result_bindings}
use rovaulta.Prelude.{
  Str, Option, List, ◌≡◌, ℕ, all, inr, true, codes, arith, inl, [], sym, ◌↔◌, ◌∙◌, All,
}
use rovaulta.Simulation.Evaluator.Compliance.{Complies, all_known, evaluate_scenarios_lem}
use rovaulta.Simulation.Evaluator.Outcome.{result_verdict, verdict_of_iff, rules_known}

assert_result_lem :
    (p : Platform) (x z : EvaluationResult) (request : Value)
    → assert_evaluation_result_bindings p (of_result x) request ≡ ok z
    → z.verdict ≡ x.verdict
unfolding assert_evaluation_result_bindings
assert_result_lem p x z request h = elim (Result-cases (parse_evaluation_result (of_result x))) [
  | inr (f, e) ↦ absurd (let q : ok z ≡ err f = ground arith in cc)
  | inl (w, e) ↦ let q : z ≡ w = ground arith in rw q (result_verdict x w e)
]

report_verdict :
    (p : Platform) (request : EvaluationRequest) (at : Str) (suite : ScenarioSuite)
    (sums : List ScenarioEvaluationSummary) (vs : List RuleViolation) (r : InternalEvaluationReport)
    → report p request at suite sums vs ≡ ok r
    → r.result.verdict ≡ verdict_of vs
unfolding report
report_verdict p request at suite sums vs r h =
    elim (Result-cases (digest_evaluation_inputs p (of_inputs request.inputs))) [
      | inr (f, e) ↦ absurd (let q : ok r ≡ err f = ground arith in cc)
      | inl (digest, e) ↦
          let x : EvaluationResult = record {
            schema_version = same_namespace request.schema_version (codes "evaluation-result/v1");
            evaluation_id = request.evaluation_id;
            inputs = request.inputs;
            evaluation_inputs_digest = digest;
            verdict = verdict_of vs;
            evaluated_at = at;
          } in
          elim (Result-cases (parse_evaluation_result (of_result x))) [
            | inr (f, g) ↦ absurd (let q : ok r ≡ err f = ground arith in cc)
            | inl (y, g) ↦
                elim (Result-cases
                  (assert_evaluation_result_bindings p (of_result y) (of_request request))) [
                    | inr (f, k) ↦ absurd (let q : ok r ≡ err f = ground arith in cc)
                    | inl (z, k) ↦
                        let q : r.result ≡ z = ground arith in
                        rw q (assert_result_lem p y z (of_request request) k ∙ result_verdict x y g)
                  ]
          ]
    ]

suite_violations :
    (envelope : ConfidentialEvaluationEnvelope) (behavior : RobotBehaviorTraceSuite)
    (found : ScenarioSuite × List ScenarioEvaluationSummary × List RuleViolation)
    → all (names_known_zone envelope.zones) envelope.rules ≡ true
    → evaluate_suite envelope behavior ≡ ok found
    → (generate_scenario_suite (of_generation envelope.scenario_generation) ≡ ok (found.0))
      × ((found.2 ≡ []) ↔ All (Complies envelope behavior.traces) (found.0).scenarios)
unfolding evaluate_suite
suite_violations envelope behavior found known h =
    elim (Result-cases (generate_scenario_suite (of_generation envelope.scenario_generation))) [
      | inr (f, e) ↦ absurd (let q : ok found ≡ err f = ground arith in cc)
      | inl (suite, e) ↦
          elim (Result-cases (evaluate_scenarios envelope behavior.traces suite.scenarios)) [
            | inr (f, g) ↦ absurd (let q : ok found ≡ err f = ground arith in cc)
            | inl (got, g) ↦
                let a : found.0 ≡ suite = ground arith in
                let b : found.2 ≡ got.1 = ground arith in
                let w =
                  evaluate_scenarios_lem envelope behavior.traces suite.scenarios got
                    (all_known envelope.zones envelope.rules known) g in
                rw (a, b) (e, w)
          ]
    ]

-- The end of an evaluation whose envelope, traces and violations are known.
reported :
    (p : Platform) (input : Value) (secret : Option (List ℕ)) (r : InternalEvaluationReport)
    (raw : Fields) (envelope : ConfidentialEvaluationEnvelope) (behavior : RobotBehaviorTraceSuite)
    (found : ScenarioSuite × List ScenarioEvaluationSummary × List RuleViolation)
    → evaluate_simulation p input secret ≡ ok r
    → expect_exact_object input evaluation_keys ≡ ok raw
    → parse_confidential_evaluation_envelope (get (codes "confidentialEnvelope") raw) ≡ ok envelope
    → parse_robot_behavior_trace_suite (get (codes "behaviorTraces") raw) ≡ ok behavior
    → evaluate_suite envelope behavior ≡ ok found
    → r.result.verdict ≡ verdict_of (found.2)
unfolding evaluate_simulation
reported p input secret r raw envelope behavior found h e e1 e2 e3 =
    elim (Result-cases (parse_evaluation_request (get (codes "request") raw))) [
      | inr (x, f) ↦ absurd (let q : ok r ≡ err x = ground arith in cc)
      | inl (request, f) ↦
          elim (Result-cases (parse_unix_timestamp (get (codes "evaluatedAt") raw))) [
            | inr (x, g) ↦ absurd (let q : ok r ≡ err x = ground arith in cc)
            | inl (at, g) ↦
                report_verdict p request at (found.0) (found.1) (found.2) r (ground arith)
          ]
    ]

-- How a report comes from the input: the envelope and the traces that are read from it, the suite
-- that is generated from the envelope, and the verdict.
pub record IsEvaluation (input : Value) (r : InternalEvaluationReport) : Type 0 where
  pub raw : Fields
  pub envelope : ConfidentialEvaluationEnvelope
  pub behavior : RobotBehaviorTraceSuite
  pub suite : ScenarioSuite
  pub raw_read : expect_exact_object input evaluation_keys ≡ ok raw
  pub envelope_read :
      parse_confidential_evaluation_envelope (get (codes "confidentialEnvelope") raw) ≡ ok envelope
  pub behavior_read :
      parse_robot_behavior_trace_suite (get (codes "behaviorTraces") raw) ≡ ok behavior
  pub suite_made : generate_scenario_suite (of_generation envelope.scenario_generation) ≡ ok suite
  pub clear_iff :
      (r.result.verdict ≡ clear) ↔ All (Complies envelope behavior.traces) suite.scenarios

-- A report is made from the envelope and the traces of the input and from the suite of the
-- envelope, and its verdict is CLEAR exactly if every scenario of the suite obeys every rule of the
-- envelope at every step of its trace.
pub evaluate_simulation-IsEvaluation :
    (p : Platform) (input : Value) (secret : Option (List ℕ)) (r : InternalEvaluationReport)
    → evaluate_simulation p input secret ≡ ok r
    → IsEvaluation input r
unfolding evaluate_simulation
evaluate_simulation-IsEvaluation p input secret r h =
    elim (Result-cases (expect_exact_object input evaluation_keys)) [
      | inr (x, e) ↦ absurd (let q : ok r ≡ err x = ground arith in cc)
      | inl (raw, e) ↦
          elim (Result-cases
            (parse_confidential_evaluation_envelope (get (codes "confidentialEnvelope") raw))) [
              | inr (x, e1) ↦ absurd (let q : ok r ≡ err x = ground arith in cc)
              | inl (envelope, e1) ↦
                  elim (Result-cases
                    (parse_robot_behavior_trace_suite (get (codes "behaviorTraces") raw))) [
                      | inr (x, e2) ↦ absurd (let q : ok r ≡ err x = ground arith in cc)
                      | inl (behavior, e2) ↦
                          elim (Result-cases (evaluate_suite envelope behavior)) [
                            | inr (x, e3) ↦ absurd (let q : ok r ≡ err x = ground arith in cc)
                            | inl (found, e3) ↦
                                let (made, w) =
                                  suite_violations envelope behavior found
                                    (rules_known (get (codes "confidentialEnvelope") raw) envelope
                                      e1)
                                    e3 in
                                let v : r.result.verdict ≡ verdict_of (found.2) =
                                  reported p input secret r raw envelope behavior found h e e1 e2
                                    e3 in
                                record {
                                  raw = raw;
                                  envelope = envelope;
                                  behavior = behavior;
                                  suite = found.0;
                                  raw_read = e;
                                  envelope_read = e1;
                                  behavior_read = e2;
                                  suite_made = made;
                                  clear_iff = (
                                    λ c. w.0 ((verdict_of_iff (found.2)).0 (sym v ∙ c)),
                                    λ a. v ∙ (verdict_of_iff (found.2)).1 (w.1 a),
                                  );
                                }
                          ]
                    ]
            ]
    ]
