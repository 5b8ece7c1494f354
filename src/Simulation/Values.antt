-- ===== src/Simulation/Values.antt =====
-- The evaluator's records as the plain data objects that the canonical serializer and the parsers read
-- (packages/simulation-core/src/model.ts).
use rovaulta.Simulation.Scenarios.{of_list}
use rovaulta.Prelude.Int.{pos}
use rovaulta.Domain.Records.{object, property}
use rovaulta.Domain.Value.{Value, integer, arr, end, str}
use rovaulta.Simulation.Model.{
  RectangleMm, WarehouseZone, SafetyRule, ScenarioTemplate, ScenarioGenerationConfig,
  ConfidentialEvaluationEnvelope, restricted_zone, site_speed_limit, zone_speed_limit,
  payload_zone_restriction,
}
use rovaulta.Prelude.{ℕ, List, true, codes, map}

abbrev pub of_rectangle : RectangleMm → Value
of_rectangle r = object (
    property (codes "minXmm") (integer r.min_x_mm) (
      property (codes "minYmm") (integer r.min_y_mm) (
        property (codes "maxXmm") (integer r.max_x_mm)
          (property (codes "maxYmm") (integer r.max_y_mm) end))))

abbrev pub of_zone : WarehouseZone → Value
of_zone z = object (
    property (codes "zoneId") (str z.zone_id)
      (property (codes "bounds") (of_rectangle z.bounds) end))

abbrev pub of_nat : ℕ → Value
of_nat n = integer (pos n)

-- Every rule has its id and its type; then come the fields of its family.
abbrev pub of_rule : SafetyRule → Value
of_rule (restricted_zone r z) = object (
    property (codes "ruleId") (str r) (
      property (codes "type") (str (codes "restricted-zone"))
        (property (codes "zoneId") (str z) end)))
of_rule (site_speed_limit r m) = object (
    property (codes "ruleId") (str r) (
      property (codes "type") (str (codes "site-speed-limit"))
        (property (codes "maximumMmPerSecond") (of_nat m) end)))
of_rule (zone_speed_limit r z m) = object (
    property (codes "ruleId") (str r) (
      property (codes "type") (str (codes "zone-speed-limit"))
        (property (codes "zoneId") (str z) (property (codes "maximumMmPerSecond") (of_nat m) end))))
of_rule (payload_zone_restriction r z m) = object (
    property (codes "ruleId") (str r) (
      property (codes "type") (str (codes "payload-zone-restriction")) (
        property (codes "zoneId") (str z)
          (property (codes "payloadGreaterThanGrams") (of_nat m) end))))

abbrev pub of_template : ScenarioTemplate → Value
of_template t = object (
    property (codes "scenarioId") (str t.scenario_id) (
      property (codes "basePayloadGrams") (of_nat t.base_payload_grams)
        (property (codes "payloadVariationGrams") (of_nat t.payload_variation_grams) end)))

abbrev pub of_array : List Value → Value
of_array vs = arr true true (of_list vs)

abbrev pub of_generation : ScenarioGenerationConfig → Value
of_generation c = object (
    property (codes "generatorVersion") (str c.generator_version) (
      property (codes "seed") (of_nat c.seed)
        (property (codes "templates") (of_array (map of_template c.templates)) end)))

-- `confidentialEnvelopeCommitmentPayload`
abbrev pub commitment_payload : ConfidentialEvaluationEnvelope → Value
commitment_payload e = object (
    property (codes "schemaVersion") (str e.schema_version) (
      property (codes "warehouseBounds") (of_rectangle e.warehouse_bounds) (
        property (codes "zones") (of_array (map of_zone e.zones)) (
          property (codes "rules") (of_array (map of_rule e.rules))
            (property (codes "scenarioGeneration") (of_generation e.scenario_generation) end)))))
