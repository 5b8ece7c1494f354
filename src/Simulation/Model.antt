-- ===== src/Simulation/Model.antt =====
-- The validated data of the evaluator (packages/simulation-core/src/model.ts). Coordinates are
-- integers; speeds and payloads are validated as non-negative, so they are natural numbers.
use rovaulta.Prelude.Int.{ℤ}
use rovaulta.Prelude.{Str, ℕ, Option, List, some, none}

pub record PointMm : Type 0 where
  pub x_mm : ℤ
  pub y_mm : ℤ

pub record RectangleMm : Type 0 where
  pub min_x_mm : ℤ
  pub min_y_mm : ℤ
  pub max_x_mm : ℤ
  pub max_y_mm : ℤ

pub record WarehouseZone : Type 0 where
  pub zone_id : Str
  pub bounds : RectangleMm

-- The arguments are the rule's id, its zone where it has one, and its limit.
pub data SafetyRule : Type 0 where
  restricted_zone : Str → Str → SafetyRule
  site_speed_limit : Str → ℕ → SafetyRule
  zone_speed_limit : Str → Str → ℕ → SafetyRule
  payload_zone_restriction : Str → Str → ℕ → SafetyRule

abbrev pub rule_id : SafetyRule → Str
rule_id (restricted_zone r z) = r
rule_id (site_speed_limit r m) = r
rule_id (zone_speed_limit r z m) = r
rule_id (payload_zone_restriction r z m) = r

-- `rule.zoneId`, which a site speed limit does not have
abbrev pub rule_zone : SafetyRule → Option Str
rule_zone (restricted_zone r z) = some z
rule_zone (site_speed_limit r m) = none
rule_zone (zone_speed_limit r z m) = some z
rule_zone (payload_zone_restriction r z m) = some z

-- `RULE_FAMILY_RANK[rule.type]`
abbrev pub rule_rank : SafetyRule → ℕ
rule_rank (restricted_zone r z) = 0
rule_rank (site_speed_limit r m) = 1
rule_rank (zone_speed_limit r z m) = 2
rule_rank (payload_zone_restriction r z m) = 3

pub record ScenarioTemplate : Type 0 where
  pub scenario_id : Str
  pub base_payload_grams : ℕ
  pub payload_variation_grams : ℕ

pub record ScenarioGenerationConfig : Type 0 where
  pub generator_version : Str
  pub seed : ℕ
  pub templates : List ScenarioTemplate

pub record ConfidentialEvaluationEnvelope : Type 0 where
  pub schema_version : Str
  pub site_id : Str
  pub safety_envelope_id : Str
  pub warehouse_bounds : RectangleMm
  pub zones : List WarehouseZone
  pub rules : List SafetyRule
  pub scenario_generation : ScenarioGenerationConfig

pub record GeneratedScenario : Type 0 where
  pub scenario_id : Str
  pub payload_grams : ℕ

pub record ScenarioSuite : Type 0 where
  pub schema_version : Str
  pub generator_version : Str
  pub seed : ℕ
  pub scenarios : List GeneratedScenario

pub record RobotTraceStep : Type 0 where
  pub step_index : ℕ
  pub position : PointMm
  pub speed_mm_per_second : ℕ

pub record RobotBehaviorTrace : Type 0 where
  pub scenario_id : Str
  pub steps : List RobotTraceStep

pub record RobotBehaviorTraceSuite : Type 0 where
  pub schema_version : Str
  pub robot_id : Str
  pub robot_build_id : Str
  pub robot_build_digest : Str
  pub traces : List RobotBehaviorTrace

abbrev pub max_abs_coordinate_mm : ℕ
max_abs_coordinate_mm = 10_000_000

abbrev pub max_speed_mm_per_second : ℕ
max_speed_mm_per_second = 1_000_000

abbrev pub max_payload_grams : ℕ
max_payload_grams = 1_000_000_000

abbrev pub max_zones : ℕ
max_zones = 128

abbrev pub max_rules : ℕ
max_rules = 16

abbrev pub max_scenarios : ℕ
max_scenarios = 16

abbrev pub max_trace_steps : ℕ
max_trace_steps = 32
