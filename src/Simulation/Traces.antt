-- ===== src/Simulation/Traces.antt =====
-- The parsers of robot behaviour traces (packages/simulation-core/src/model.ts).
use rovaulta.Domain.Schemas.{version_of}
use rovaulta.Domain.Identifiers.{parse_robot_id, parse_robot_build_id, parse_sha256_digest}
use rovaulta.Simulation.Parse.{
  code_units_le, expect_exact_object, expect_array, traverse, expect_natural, assert_unique_ids,
  expect_version, parse_scenario_id, parse_point_mm, parse_speed,
}
use rovaulta.Errors.{Result, ◌>>=◌, ok, ◌>>◌, require, protocol, malformed_object}
use rovaulta.Simulation.Model.{
  RobotBehaviorTrace, RobotTraceStep, RobotBehaviorTraceSuite, max_scenarios, max_trace_steps,
}
use rovaulta.Domain.Value.{Value, get}
use rovaulta.Prelude.{Str, ℕ, List, codes, Bool, map, ◌∷◌, [], ◌==◌, ◌-◌, suc}
use rovaulta.Prelude.Sort.{sort}

unfoldable pub parse_trace_step : Value → Result RobotTraceStep
parse_trace_step input = do
  fs ←
      expect_exact_object input
        (codes "stepIndex" ∷ codes "position" ∷ codes "speedMmPerSecond" ∷ [])
  index ← expect_natural (get (codes "stepIndex") fs) 0 (max_trace_steps - 1)
  position ← parse_point_mm (get (codes "position") fs)
  speed ← parse_speed (get (codes "speedMmPerSecond") fs)
  ok (record { step_index = index; position = position; speed_mm_per_second = speed })

-- `steps.map((step, index) => …)`: each step carries its own index.
unfoldable pub parse_steps : ℕ → List Value → Result (List RobotTraceStep)
parse_steps index [] = ok []
parse_steps index (v ∷ vs) = do
  step ← parse_trace_step v
  require (step.step_index == index) (protocol malformed_object)
  steps ← parse_steps (suc index) vs
  ok (step ∷ steps)

unfoldable pub parse_behavior_trace : Value → Result RobotBehaviorTrace
unfolding parse_steps
parse_behavior_trace input = do
  fs ← expect_exact_object input (codes "scenarioId" ∷ codes "steps" ∷ [])
  inputs ← expect_array (get (codes "steps") fs) max_trace_steps
  steps ← parse_steps 0 inputs
  scenario ← parse_scenario_id (get (codes "scenarioId") fs)
  ok (record { scenario_id = scenario; steps = steps })

abbrev pub trace_le : RobotBehaviorTrace → RobotBehaviorTrace → Bool
trace_le a b = code_units_le a.scenario_id b.scenario_id

abbrev pub trace_ids : List RobotBehaviorTrace → List Str
trace_ids = map (λ t. t.scenario_id)

unfoldable pub parse_robot_behavior_traces : Value → Result (List RobotBehaviorTrace)
unfolding parse_behavior_trace
parse_robot_behavior_traces input = do
  inputs ← expect_array input max_scenarios
  parsed ← traverse parse_behavior_trace inputs
  let traces = sort trace_le parsed
  assert_unique_ids (trace_ids traces)
  ok traces

abbrev pub trace_suite_suffix : Str
trace_suite_suffix = codes "robot-trace-suite/v1"

unfoldable pub parse_robot_behavior_trace_suite : Value → Result RobotBehaviorTraceSuite
unfolding parse_robot_behavior_traces
parse_robot_behavior_trace_suite input = do
  fs ← expect_exact_object input (
      codes "schemaVersion"
      ∷ codes "robotId"
      ∷ codes "robotBuildId"
      ∷ codes "robotBuildDigest"
      ∷ codes "traces"
      ∷ [])
  dialect ← expect_version (get (codes "schemaVersion") fs) trace_suite_suffix
  traces ← parse_robot_behavior_traces (get (codes "traces") fs)
  robot ← parse_robot_id (get (codes "robotId") fs)
  build ← parse_robot_build_id (get (codes "robotBuildId") fs)
  digest ← parse_sha256_digest (get (codes "robotBuildDigest") fs)
  ok (record {
    schema_version = version_of trace_suite_suffix dialect;
    robot_id = robot;
    robot_build_id = build;
    robot_build_digest = digest;
    traces = traces;
  })
