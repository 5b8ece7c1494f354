-- ===== src/Simulation/Rules.antt =====
-- One scenario against the safety rules (packages/simulation-core/src/evaluator.ts).
pub mod Compliance
pub mod Verdict
use rovaulta.Prelude.Sort.{sort}
use rovaulta.Simulation.Parse.{code_units_le}
use rovaulta.Simulation.Geometry.{
  point_inside_closed_rectangle, segment_intersects_closed_rectangle,
}
use rovaulta.Errors.{
  Result, ◌>>=◌, or_throw, other_error, ok, require, ◌>>◌, protocol, malformed_object,
}
use rovaulta.Simulation.Model.{
  PointMm, RobotTraceStep, WarehouseZone, GeneratedScenario, RobotBehaviorTrace, SafetyRule,
  RectangleMm, ConfidentialEvaluationEnvelope, rule_id,
}
use rovaulta.Prelude.{
  Str, ℕ, List, Option, Bool, none, ◌∷◌, get_elem?, some, if◌then◌else◌, ◌==◌, str_eq, [], ◌-◌,
  ◌++◌, ltb, leb, any, suc, not, all, length, zero, ◌||◌, true, false,
}

-- The step, with the point at which a trace starts or the segment that arrives there.
pub data RuleObservation : Type 0 where
  point : ℕ → PointMm → RuleObservation
  segment : ℕ → PointMm → PointMm → RuleObservation

abbrev pub step_of : RuleObservation → ℕ
step_of (point i p) = i
step_of (segment i p q) = i

-- What each kind of violation says besides: its zone, the observed value and the limit.
pub data ViolationDetail : Type 0 where
  restricted_zone : Str → ViolationDetail
  site_speed_limit : ℕ → ℕ → ViolationDetail
  zone_speed_limit : Str → ℕ → ℕ → ViolationDetail
  payload_zone_restriction : Str → ℕ → ℕ → ViolationDetail

abbrev pub detail_rank : ViolationDetail → ℕ
detail_rank (ViolationDetail.restricted_zone z) = 0
detail_rank (ViolationDetail.site_speed_limit o m) = 1
detail_rank (ViolationDetail.zone_speed_limit z o m) = 2
detail_rank (ViolationDetail.payload_zone_restriction z o m) = 3

pub record RuleViolation : Type 0 where
  pub scenario_id : Str
  pub violated_rule : Str
  pub observation : RuleObservation
  pub detail : ViolationDetail

-- `steps[stepIndex]` and `steps[stepIndex - 1]`; a missing step is thrown.
unfoldable pub observation_for_step : List RobotTraceStep → ℕ → Result RuleObservation
observation_for_step steps index = do
  step ← or_throw (get_elem? steps index) other_error
  if index == 0 then ok (point index step.position) else do
    previous ← or_throw (get_elem? steps (index - 1)) other_error
    ok (segment index previous.position step.position)

unfoldable pub observation_intersects_zone : List RobotTraceStep → ℕ → WarehouseZone → Result Bool
observation_intersects_zone steps index zone = do
  step ← or_throw (get_elem? steps index) other_error
  if index == 0 then ok (point_inside_closed_rectangle step.position zone.bounds) else do
    previous ← or_throw (get_elem? steps (index - 1)) other_error
    ok (segment_intersects_closed_rectangle previous.position step.position zone.bounds)

-- `zones.get(id)` of `new Map(zones.map((zone) => [zone.zoneId, zone]))`: the last one wins.
abbrev pub zone_named : Str → List WarehouseZone → Option WarehouseZone
zone_named id [] = none
zone_named id (z ∷ zs) = elim (zone_named id zs) [
  | some found ↦ some found
  | none ↦ if str_eq z.zone_id id then some z else none
]

module _ (scenario : GeneratedScenario) (trace : RobotBehaviorTrace)
    (zones : List WarehouseZone) where
  abbrev pub violation : Str → RuleObservation → ViolationDetail → RuleViolation
  violation rule observation detail = record {
    scenario_id = scenario.scenario_id;
    violated_rule = rule;
    observation = observation;
    detail = detail;
  }

  -- The test that every rule on a zone begins with.
  unfoldable pub zone_is_entered : Str → ℕ → Result Bool
  zone_is_entered zone_id index = do
    zone ← or_throw (zone_named zone_id zones) other_error
    observation_intersects_zone trace.steps index zone

  unfoldable pub evaluate_rule : SafetyRule → ℕ → Result (Option RuleViolation)
  evaluate_rule (SafetyRule.site_speed_limit rule maximum) index = do
    step ← or_throw (get_elem? trace.steps index) other_error
    observation ← observation_for_step trace.steps index
    ok (
        if leb step.speed_mm_per_second maximum
        then none
        else some (
            violation rule observation
              (ViolationDetail.site_speed_limit step.speed_mm_per_second maximum)))
  evaluate_rule (SafetyRule.restricted_zone rule zone) index = do
    step ← or_throw (get_elem? trace.steps index) other_error
    observation ← observation_for_step trace.steps index
    entered ← zone_is_entered zone index
    ok (
        if not entered
        then none
        else some (violation rule observation (ViolationDetail.restricted_zone zone)))
  evaluate_rule (SafetyRule.zone_speed_limit rule zone maximum) index = do
    step ← or_throw (get_elem? trace.steps index) other_error
    observation ← observation_for_step trace.steps index
    entered ← zone_is_entered zone index
    ok (
        if not entered || leb step.speed_mm_per_second maximum
        then none
        else some (
            violation rule observation
              (ViolationDetail.zone_speed_limit zone step.speed_mm_per_second maximum)))
  evaluate_rule (SafetyRule.payload_zone_restriction rule zone threshold) index = do
    step ← or_throw (get_elem? trace.steps index) other_error
    observation ← observation_for_step trace.steps index
    entered ← zone_is_entered zone index
    ok (
        if not entered || leb scenario.payload_grams threshold
        then none
        else some (
            violation rule observation
              (ViolationDetail.payload_zone_restriction zone scenario.payload_grams threshold)))

  -- The body of the inner loop over `failedRules` and `violations`.
  abbrev pub note_violation :
      Str → List Str → List RuleViolation → Option RuleViolation → List Str × List RuleViolation
  note_violation rule failed violations none = (failed, violations)
  note_violation rule failed violations (some v) = (rule ∷ failed, violations ++ v ∷ [])

  -- The inner loop of `evaluateScenario`: each rule that has not failed yet, at one step.
  unfoldable pub scan_rules :
      List SafetyRule → ℕ → List Str → List RuleViolation → Result (List Str × List RuleViolation)
  scan_rules [] index failed violations = ok (failed, violations)
  scan_rules (rule ∷ rules) index failed violations = elim (any (str_eq (rule_id rule)) failed) [
    | true ↦ scan_rules rules index failed violations
    | false ↦ evaluate_rule rule index >>= λ found.
        let (failed', violations') = note_violation (rule_id rule) failed violations found in
        scan_rules rules index failed' violations'
  ]

  -- The outer loop, over the steps that are left.
  unfoldable pub scan_steps :
      List SafetyRule → ℕ → ℕ → List Str → List RuleViolation → Result (List RuleViolation)
  scan_steps rules zero index failed violations = ok violations
  scan_steps rules (suc left) index failed violations =
      scan_rules rules index failed violations >>= λ state.
      scan_steps rules left (suc index) state.0 state.1

-- `assertTraceInsideWarehouse`
unfoldable pub assert_trace_inside_warehouse : RobotBehaviorTrace → RectangleMm → Result (Unit {0})
assert_trace_inside_warehouse trace bounds =
    require (all (λ step. point_inside_closed_rectangle step.position bounds) trace.steps)
      (protocol malformed_object)

-- By step, then by family, then by id.
abbrev pub violation_le : RuleViolation → RuleViolation → Bool
violation_le a b =
    if step_of a.observation == step_of b.observation
    then if detail_rank a.detail == detail_rank b.detail
      then code_units_le a.violated_rule b.violated_rule
      else ltb (detail_rank a.detail) (detail_rank b.detail)
    else ltb (step_of a.observation) (step_of b.observation)

unfoldable pub evaluate_scenario :
    GeneratedScenario
    → RobotBehaviorTrace
    → ConfidentialEvaluationEnvelope
    → List WarehouseZone
    → Result (List RuleViolation)
evaluate_scenario scenario trace envelope zones = do
  assert_trace_inside_warehouse trace envelope.warehouse_bounds
  violations ← scan_steps scenario trace zones envelope.rules (length trace.steps) 0 [] []
  ok (sort violation_le violations)
