-- ===== src/Tests/Rules.antt =====
-- The rules and the scenario generator on the data of one evaluation.
use rovaulta.Simulation.Rules.Compliance.{Decides, evaluate_rule-Decides, IsKnown, Obeys}
use rovaulta.Prelude.Sort.{sort}
use rovaulta.Domain.Identifiers.{parse_identifier}
use rovaulta.Tests.{returned, has_returned}
use rovaulta.Simulation.Scenarios.Shuffle.{shuffle-perm}
use rovaulta.Errors.{ok, err, protocol, unsupported_version}
use rovaulta.Simulation.Scenarios.Drafts.{
  AreDraftsOf, draft_of, generate_scenario_suite-AreDraftsOf, generate_scenario_suite-legacy,
}
use rovaulta.Domain.Value.{expect_data_object, resolve_version}
use rovaulta.Prelude.Int.{pos, ◌+ℤ◌, ◌-ℤ◌}
use rovaulta.Simulation.Values.{of_generation}
use rovaulta.Simulation.Parse.{
  expect_exact_object, expect_version, expect_array, traverse, parse_scenario_template,
  expect_natural, expect_integer,
}
use rovaulta.Tests.Evaluation.{zone, bounds, config, rules}
use rovaulta.Simulation.Scenarios.{
  generate_scenario_suite, Draft, shuffle, next_uint32, vary_payload, draft_scenarios, exchange,
}
use rovaulta.Simulation.Envelope.{
  parse_scenario_generation_config, parse_scenario_suite, parse_generated_scenario,
}
use rovaulta.Simulation.Rules.Verdict.{Finds, evaluate_scenario-clear}
use rovaulta.Simulation.Rules.Compliance.{IsKnown, Obeys}
use rovaulta.Simulation.Rules.{assert_trace_inside_warehouse, evaluate_scenario, evaluate_rule}
use mathlib.Core.Option.{some-injective, none}
use mathlib.Core.List.{Perm, List, [], map}
use rovaulta.Simulation.Model.{
  restricted_zone, site_speed_limit, GeneratedScenario, RobotBehaviorTrace,
  ConfidentialEvaluationEnvelope, ScenarioGenerationConfig, ScenarioSuite,
}
use rovaulta.Prelude.{List, codes, ℕ, ◌≡◌, ◌∷◌, [], map, sym, refl, ◌<◌, arith, All, true}

abbrev pub scenario : GeneratedScenario
scenario = record { scenario_id = codes "scenario:x"; payload_grams = 50 }

abbrev pub trace : RobotBehaviorTrace
trace = record {
  scenario_id = codes "scenario:x";
  steps =
      record {
        step_index = 0;
        position = record { x_mm = pos 1; y_mm = pos 1 };
        speed_mm_per_second = 10;
      }
      ∷ record {
        step_index = 1;
        position = record { x_mm = pos 8; y_mm = pos 1 };
        speed_mm_per_second = 90;
      }
      ∷ [];
}

abbrev pub envelope : ConfidentialEvaluationEnvelope
envelope = record {
  schema_version = codes "rovaulta.confidential-evaluation-envelope/v1";
  site_id = codes "site:alpha";
  safety_envelope_id = codes "safety-envelope:e1";
  warehouse_bounds = bounds;
  zones = zone ∷ [];
  rules = rules;
  scenario_generation = config;
}

inside_lem : assert_trace_inside_warehouse trace bounds ≡ ok tt
unfolding assert_trace_inside_warehouse
inside_lem = refl

IsKnown-zone :
    IsKnown scenario trace (zone ∷ []) (restricted_zone (codes "rule:r") (codes "zone:a"))
IsKnown-zone z e = (zone, rw (sym (some-injective _ _ e)) refl)

IsKnown-speed : IsKnown scenario trace (zone ∷ []) (site_speed_limit (codes "rule:s") 100)
IsKnown-speed z e = cc

evaluate_scenario-clear_example :
    Finds scenario trace
      (zone ∷ [])
      (evaluate_scenario scenario trace envelope (zone ∷ []))
      ((j : ℕ) → j < 2 → All (Obeys scenario trace (zone ∷ []) j) rules)
evaluate_scenario-clear_example =
    evaluate_scenario-clear scenario trace envelope (zone ∷ []) inside_lem
      (IsKnown-zone, (IsKnown-speed, tt))

evaluate_rule-Decides_example :
    Decides scenario trace (zone ∷ []) 1 (restricted_zone (codes "rule:r") (codes "zone:a")) (
      evaluate_rule scenario trace
        (zone ∷ [])
        (restricted_zone (codes "rule:r") (codes "zone:a"))
        1)
evaluate_rule-Decides_example =
    evaluate_rule-Decides scenario trace (zone ∷ [])
      (restricted_zone (codes "rule:r") (codes "zone:a")) 1 (omega arith) IsKnown-zone

shuffle-perm_example :
    (ys : List ℕ) × (shuffle 2 (10 ∷ 20 ∷ 30 ∷ []) 7 ≡ ok ys) × Perm ys (10 ∷ 20 ∷ 30 ∷ [])
shuffle-perm_example = shuffle-perm 2 (10 ∷ 20 ∷ 30 ∷ []) 7 (omega arith)

config_returns : has_returned (parse_scenario_generation_config (of_generation config) none) ≡ true
unfolding parse_scenario_generation_config expect_exact_object expect_data_object expect_version
    resolve_version expect_array traverse parse_scenario_template parse_identifier expect_natural
    expect_integer sort
config_returns = refl

suite_returns : has_returned (generate_scenario_suite (of_generation config)) ≡ true
unfolding generate_scenario_suite parse_scenario_generation_config expect_exact_object
    expect_data_object expect_version resolve_version expect_array traverse parse_scenario_template
    parse_identifier expect_natural expect_integer sort next_uint32 vary_payload draft_scenarios
    exchange shuffle parse_scenario_suite parse_generated_scenario ◌+ℤ◌ ◌-ℤ◌
suite_returns = refl

abbrev parsed :
    (c : ScenarioGenerationConfig) × (parse_scenario_generation_config (of_generation config) none
      ≡ ok c)
parsed = returned _ config_returns

abbrev made : (s : ScenarioSuite) × (generate_scenario_suite (of_generation config) ≡ ok s)
made = returned _ suite_returns

generate_scenario_suite-AreDraftsOf_example :
    (ds : List Draft) × AreDraftsOf (parsed.0).templates ds
    × Perm (map draft_of (made.0).scenarios) ds
generate_scenario_suite-AreDraftsOf_example =
    generate_scenario_suite-AreDraftsOf (of_generation config) (parsed.0) (made.0) (parsed.1)
      (made.1)

abbrev legacy_config : ScenarioGenerationConfig
legacy_config = record {
  generator_version = codes "preflight.xorshift32-scenarios/v1";
  seed = 7;
  templates = config.templates;
}

legacy_lem : parse_scenario_generation_config (of_generation legacy_config) none ≡ ok legacy_config
unfolding parse_scenario_generation_config expect_exact_object expect_data_object expect_version
    resolve_version expect_array traverse parse_scenario_template parse_identifier expect_natural
    expect_integer sort
legacy_lem = refl

generate_scenario_suite-legacy_example :
    generate_scenario_suite (of_generation legacy_config) ≡ err (protocol unsupported_version)
generate_scenario_suite-legacy_example =
    generate_scenario_suite-legacy (of_generation legacy_config) legacy_config legacy_lem refl
