-- ===== src/Simulation/Envelope.antt =====
-- The parsers of the scenario generator's configuration, the confidential envelope and the scenario
-- suite (packages/simulation-core/src/model.ts).
pub mod Items
pub mod Order
pub mod Valid
use rovaulta.Domain.Schemas.{version_of}
use rovaulta.Domain.Identifiers.{parse_site_id, parse_safety_envelope_id}
use rovaulta.Simulation.Parse.{
  code_units_le, expect_exact_object, expect_array, expect_version, parse_scenario_id, traverse,
  parse_zone, parse_rule, parse_rectangle_mm, parse_payload, assert_unique_ids,
  rectangle_contains_rectangle, parse_scenario_template, expect_natural,
}
use rovaulta.Errors.{
  Result, ◌>>=◌, ◌>>◌, reject, ok, require, protocol, unsupported_version, malformed_object,
}
use rovaulta.Simulation.Model.{
  ScenarioTemplate, WarehouseZone, SafetyRule, RectangleMm, GeneratedScenario,
  ScenarioGenerationConfig, rule_id, rule_zone, ConfidentialEvaluationEnvelope, ScenarioSuite,
  rule_rank, max_zones, max_rules, max_scenarios,
}
use rovaulta.Domain.Value.{current, legacy, Dialect, Value, get}
use rovaulta.Prelude.{
  Str, codes, List, Bool, Option, map, ◌∷◌, false, if◌then◌else◌, [], some, none, not, ◌==◌, true,
  ltb, any, str_eq, all,
}
use rovaulta.Prelude.Sort.{sort}

abbrev pub generator_suffix : Str
generator_suffix = codes "xorshift32-scenarios/v1"

abbrev pub same_dialect : Dialect → Dialect → Bool
same_dialect current current = true
same_dialect current legacy = false
same_dialect legacy current = false
same_dialect legacy legacy = true

-- `expectedDialect !== undefined && dialect !== expectedDialect`
abbrev pub is_unexpected : Dialect → Option Dialect → Bool
is_unexpected dialect none = false
is_unexpected dialect (some expected) = not (same_dialect dialect expected)

abbrev pub template_le : ScenarioTemplate → ScenarioTemplate → Bool
template_le a b = code_units_le a.scenario_id b.scenario_id

abbrev pub template_ids : List ScenarioTemplate → List Str
template_ids = map (λ t. t.scenario_id)

unfoldable pub parse_scenario_generation_config :
    Value → Option Dialect → Result ScenarioGenerationConfig
parse_scenario_generation_config input expected_dialect = do
  fs ← expect_exact_object input (codes "generatorVersion" ∷ codes "seed" ∷ codes "templates" ∷ [])
  dialect ← expect_version (get (codes "generatorVersion") fs) generator_suffix
  reject (is_unexpected dialect expected_dialect) (protocol unsupported_version)
  inputs ← expect_array (get (codes "templates") fs) max_scenarios
  parsed ← traverse parse_scenario_template inputs
  let templates = sort template_le parsed
  assert_unique_ids (template_ids templates)
  seed ← expect_natural (get (codes "seed") fs) 1 0xffffffff
  ok (record {
    generator_version = version_of generator_suffix dialect;
    seed = seed;
    templates = templates;
  })

abbrev pub zone_le : WarehouseZone → WarehouseZone → Bool
zone_le a b = code_units_le a.zone_id b.zone_id

abbrev pub zone_ids : List WarehouseZone → List Str
zone_ids = map (λ z. z.zone_id)

-- By family, then by id.
abbrev pub rule_le : SafetyRule → SafetyRule → Bool
rule_le a b =
    if rule_rank a == rule_rank b
    then code_units_le (rule_id a) (rule_id b)
    else ltb (rule_rank a) (rule_rank b)

abbrev pub rule_ids : List SafetyRule → List Str
rule_ids = map rule_id

-- `rule.type === "site-speed-limit" || zoneIds.has(rule.zoneId)`
abbrev pub names_known_zone : List WarehouseZone → SafetyRule → Bool
names_known_zone zones rule = elim (rule_zone rule) [
  | none ↦ true
  | some z ↦ any (λ zone. str_eq zone.zone_id z) zones
]

abbrev pub envelope_keys : List Str
envelope_keys =
    codes "schemaVersion"
    ∷ codes "siteId"
    ∷ codes "safetyEnvelopeId"
    ∷ codes "warehouseBounds"
    ∷ codes "zones"
    ∷ codes "rules"
    ∷ codes "scenarioGeneration"
    ∷ []

abbrev pub envelope_suffix : Str
envelope_suffix = codes "confidential-evaluation-envelope/v1"

-- `zones` of `parseConfidentialEvaluationEnvelope`: parsed, in order of their ids, which are unique,
-- and inside the warehouse.
unfoldable pub parse_zones : Value → RectangleMm → Result (List WarehouseZone)
parse_zones input bounds = do
  inputs ← expect_array input max_zones
  parsed ← traverse parse_zone inputs
  let zones = sort zone_le parsed
  assert_unique_ids (zone_ids zones)
  require (all (λ z. rectangle_contains_rectangle bounds z.bounds) zones)
      (protocol malformed_object)
  ok zones

-- `rules` of `parseConfidentialEvaluationEnvelope`.
unfoldable pub parse_rules : Value → List WarehouseZone → Result (List SafetyRule)
parse_rules input zones = do
  inputs ← expect_array input max_rules
  parsed ← traverse parse_rule inputs
  let rules = sort rule_le parsed
  assert_unique_ids (rule_ids rules)
  require (all (names_known_zone zones) rules) (protocol malformed_object)
  ok rules

unfoldable pub parse_confidential_evaluation_envelope :
    Value → Result ConfidentialEvaluationEnvelope
unfolding parse_zones parse_rules
parse_confidential_evaluation_envelope input = do
  fs ← expect_exact_object input envelope_keys
  dialect ← expect_version (get (codes "schemaVersion") fs) envelope_suffix
  bounds ← parse_rectangle_mm (get (codes "warehouseBounds") fs)
  zones ← parse_zones (get (codes "zones") fs) bounds
  rules ← parse_rules (get (codes "rules") fs) zones
  site ← parse_site_id (get (codes "siteId") fs)
  envelope ← parse_safety_envelope_id (get (codes "safetyEnvelopeId") fs)
  generation ← parse_scenario_generation_config (get (codes "scenarioGeneration") fs) (some dialect)
  ok (record {
    schema_version = version_of envelope_suffix dialect;
    site_id = site;
    safety_envelope_id = envelope;
    warehouse_bounds = bounds;
    zones = zones;
    rules = rules;
    scenario_generation = generation;
  })

unfoldable pub parse_generated_scenario : Value → Result GeneratedScenario
parse_generated_scenario input = do
  fs ← expect_exact_object input (codes "scenarioId" ∷ codes "payloadGrams" ∷ [])
  scenario ← parse_scenario_id (get (codes "scenarioId") fs)
  payload ← parse_payload (get (codes "payloadGrams") fs)
  ok (record { scenario_id = scenario; payload_grams = payload })

abbrev pub scenario_ids : List GeneratedScenario → List Str
scenario_ids = map (λ s. s.scenario_id)

abbrev pub suite_suffix : Str
suite_suffix = codes "scenario-suite/v1"

unfoldable pub parse_scenario_suite : Value → Result ScenarioSuite
unfolding parse_generated_scenario
parse_scenario_suite input = do
  fs ←
      expect_exact_object input
        (codes "schemaVersion" ∷ codes "generatorVersion" ∷ codes "seed" ∷ codes "scenarios" ∷ [])
  schema ← expect_version (get (codes "schemaVersion") fs) suite_suffix
  generator ← expect_version (get (codes "generatorVersion") fs) generator_suffix
  require (same_dialect schema generator) (protocol unsupported_version)
  inputs ← expect_array (get (codes "scenarios") fs) max_scenarios
  scenarios ← traverse parse_generated_scenario inputs
  assert_unique_ids (scenario_ids scenarios)
  seed ← expect_natural (get (codes "seed") fs) 1 0xffffffff
  ok (record {
    schema_version = version_of suite_suffix schema;
    generator_version = version_of generator_suffix generator;
    seed = seed;
    scenarios = scenarios;
  })
