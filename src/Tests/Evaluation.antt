-- ===== src/Tests/Evaluation.antt =====
-- One whole evaluation: a robot that stays out of a restricted zone.
use rovaulta.Simulation.Envelope.Valid.{
  IsValidEnvelope, IsEnvelopeOf, parse_confidential_evaluation_envelope-IsValidEnvelope,
}
use rovaulta.Errors.{ok}
use rovaulta.Simulation.Evaluator.Clear.{IsEvaluation, evaluate_simulation-IsEvaluation}
use rovaulta.Simulation.Geometry.{segment_intersects_closed_rectangle}
use rovaulta.Simulation.Rules.{
  evaluate_scenario, assert_trace_inside_warehouse, scan_steps, scan_rules, evaluate_rule,
  zone_is_entered, observation_intersects_zone, observation_for_step,
}
use rovaulta.Simulation.Scenarios.{
  next_uint32, vary_payload, draft_scenarios, exchange, shuffle, generate_scenario_suite,
}
use rovaulta.Prelude.Sort.{sort}
use rovaulta.Simulation.Traces.{
  parse_trace_step, parse_steps, parse_behavior_trace, parse_robot_behavior_traces,
  parse_robot_behavior_trace_suite,
}
use rovaulta.Simulation.Envelope.{
  parse_scenario_generation_config, parse_zones, parse_rules,
  parse_confidential_evaluation_envelope, parse_generated_scenario, parse_scenario_suite,
}
use rovaulta.Simulation.Parse.{
  expect_exact_object, expect_array, expect_integer, expect_natural, expect_version, traverse,
  parse_point_mm, parse_rectangle_mm, parse_zone, parse_rule, parse_scenario_template,
}
use rovaulta.Domain.Bindings.{
  assert_inputs, assert_evaluation_input_bindings, assert_evaluation_result_bindings,
}
use rovaulta.Domain.Schemas.{
  expect_schema, parse_verdict, parse_evaluation_inputs, parse_evaluation_request,
  parse_evaluation_result,
}
use rovaulta.Domain.ReleaseSchemas.{parse_robot_build_descriptor, parse_safety_envelope_metadata}
use rovaulta.Domain.Digests.{
  digest_frame, digest_robot_build, digest_evaluation_inputs, digest_safety_envelope_commitment,
}
use rovaulta.Domain.Canonical.{canonical_serialize, utf8_encode}
use rovaulta.Domain.Timestamps.{compare_unix_timestamps, parse_unix_timestamp}
use rovaulta.Domain.Identifiers.{parse_identifier, parse_sha256_digest}
use rovaulta.Simulation.Values.{of_nat, of_rectangle, of_array, of_zone, of_rule, of_generation}
use rovaulta.Tests.{has_returned, digest, sample_inputs, platform, zeros, ok, returned}
use rovaulta.Domain.Records.{object, of_robot_build, of_request, property}
use rovaulta.Prelude.Int.{pos, ◌+ℤ◌, ◌-ℤ◌, ◌*ℤ◌}
use rovaulta.Simulation.Evaluator.{
  evaluate_simulation, evaluate_suite, assert_evaluation_bindings, report, check_traces,
  evaluate_scenarios, InternalEvaluationReport,
}
use rovaulta.Domain.Value.{
  Value, str, opaque, end, expect_data_object, resolve_version, expect_exact_schema,
}
use rovaulta.Simulation.Model.{
  RectangleMm, WarehouseZone, ScenarioGenerationConfig, SafetyRule, restricted_zone,
  site_speed_limit, ConfidentialEvaluationEnvelope,
}
use rovaulta.Prelude.{refl, List, ℕ, codes, ◌∷◌, [], none, some, ◌≡◌, map, true}

abbrev pub bounds : RectangleMm
bounds = record { min_x_mm = pos 0; min_y_mm = pos 0; max_x_mm = pos 9; max_y_mm = pos 9 }

abbrev pub zone : WarehouseZone
zone = record {
  zone_id = codes "zone:a";
  bounds = record { min_x_mm = pos 5; min_y_mm = pos 5; max_x_mm = pos 7; max_y_mm = pos 7 };
}

abbrev pub rules : List SafetyRule
rules =
    restricted_zone (codes "rule:r") (codes "zone:a") ∷ site_speed_limit (codes "rule:s") 100 ∷ []

abbrev pub config : ScenarioGenerationConfig
config = record {
  generator_version = codes "rovaulta.xorshift32-scenarios/v1";
  seed = 7;
  templates =
      record {
        scenario_id = codes "scenario:x";
        base_payload_grams = 50;
        payload_variation_grams = 5;
      }
      ∷ [];
}

abbrev pub envelope_value : Value
envelope_value = object (
    property (codes "schemaVersion") (str (codes "rovaulta.confidential-evaluation-envelope/v1")) (
      property (codes "siteId") (str (codes "site:alpha")) (
        property (codes "safetyEnvelopeId") (str (codes "safety-envelope:e1")) (
          property (codes "warehouseBounds") (of_rectangle bounds) (
            property (codes "zones") (of_array (of_zone zone ∷ [])) (
              property (codes "rules") (of_array (map of_rule rules))
                (property (codes "scenarioGeneration") (of_generation config) end)))))))

abbrev pub step_value : ℕ → ℕ → ℕ → Value
step_value index x speed = object (
    property (codes "stepIndex") (of_nat index) (
      property (codes "position")
        (object (property (codes "xMm") (of_nat x) (property (codes "yMm") (of_nat 1) end)))
        (property (codes "speedMmPerSecond") (of_nat speed) end)))

abbrev pub traces_value : Value
traces_value = object (
    property (codes "schemaVersion") (str (codes "rovaulta.robot-trace-suite/v1")) (
      property (codes "robotId") (str (codes "robot:r1")) (
        property (codes "robotBuildId") (str (codes "robot-build:b1")) (
          property (codes "robotBuildDigest") (str digest) (
            property (codes "traces")
              (of_array (
                object (
                  property (codes "scenarioId") (str (codes "scenario:x")) (
                    property (codes "steps") (of_array (step_value 0 1 10 ∷ step_value 1 8 90 ∷ []))
                      end))
                ∷ []))
              end)))))

abbrev pub build_value : Value
build_value = of_robot_build (record {
  schema_version = codes "rovaulta.robot-build/v1";
  robot_id = codes "robot:r1";
  robot_build_id = codes "robot-build:b1";
  artifact_digest = digest;
  build_integrity_digest = none;
})

abbrev pub request_value : Value
request_value = of_request (record {
  schema_version = codes "rovaulta.evaluation-request/v1";
  evaluation_id = codes "evaluation:one";
  inputs = sample_inputs;
  requested_at = codes "1000";
})

abbrev pub input : Value
input = object (
    property (codes "request") request_value (
      property (codes "robotBuild") build_value (
        property (codes "confidentialEnvelope") envelope_value (
          property (codes "envelopeBlindingSecret") opaque (
            property (codes "behaviorTraces") traces_value
              (property (codes "evaluatedAt") (str (codes "2000")) end))))))

run_returns : has_returned (evaluate_simulation platform input (some zeros)) ≡ true
unfolding evaluate_simulation parse_identifier parse_sha256_digest compare_unix_timestamps
    parse_unix_timestamp canonical_serialize utf8_encode digest_frame digest_robot_build
    digest_evaluation_inputs digest_safety_envelope_commitment parse_robot_build_descriptor
    parse_safety_envelope_metadata expect_schema parse_verdict parse_evaluation_inputs
    parse_evaluation_request parse_evaluation_result expect_data_object resolve_version
    expect_exact_schema assert_inputs assert_evaluation_input_bindings
    assert_evaluation_result_bindings expect_exact_object expect_array expect_integer expect_natural
    expect_version traverse parse_point_mm parse_rectangle_mm parse_zone parse_rule
    parse_scenario_template parse_scenario_generation_config parse_zones parse_rules
    parse_confidential_evaluation_envelope parse_generated_scenario parse_scenario_suite
    parse_trace_step parse_steps parse_behavior_trace parse_robot_behavior_traces
    parse_robot_behavior_trace_suite sort next_uint32 vary_payload draft_scenarios exchange shuffle
    generate_scenario_suite evaluate_suite assert_evaluation_bindings report check_traces
    evaluate_scenarios evaluate_scenario assert_trace_inside_warehouse scan_steps scan_rules
    evaluate_rule zone_is_entered observation_intersects_zone observation_for_step
    segment_intersects_closed_rectangle ◌+ℤ◌ ◌-ℤ◌ ◌*ℤ◌
run_returns = refl

abbrev evaluated :
    (r : InternalEvaluationReport) × (evaluate_simulation platform input (some zeros) ≡ ok r)
evaluated = returned (evaluate_simulation platform input (some zeros)) run_returns

evaluate_simulation-IsEvaluation_example : IsEvaluation input (evaluated.0)
evaluate_simulation-IsEvaluation_example =
    evaluate_simulation-IsEvaluation platform input (some zeros) (evaluated.0) (evaluated.1)

envelope_returns : has_returned (parse_confidential_evaluation_envelope envelope_value) ≡ true
unfolding parse_confidential_evaluation_envelope parse_zones parse_rules parse_zone parse_rule
    parse_rectangle_mm expect_exact_object expect_data_object expect_version resolve_version
    expect_array traverse parse_scenario_template parse_scenario_generation_config parse_identifier
    expect_natural expect_integer sort
envelope_returns = refl

abbrev parsed_envelope :
    (e : ConfidentialEvaluationEnvelope) × (parse_confidential_evaluation_envelope envelope_value
      ≡ ok e)
parsed_envelope = returned _ envelope_returns

parse_confidential_evaluation_envelope-IsValidEnvelope_example :
    IsEnvelopeOf envelope_value (parsed_envelope.0) × IsValidEnvelope (parsed_envelope.0)
parse_confidential_evaluation_envelope-IsValidEnvelope_example =
    parse_confidential_evaluation_envelope-IsValidEnvelope envelope_value (parsed_envelope.0)
      (parsed_envelope.1)
