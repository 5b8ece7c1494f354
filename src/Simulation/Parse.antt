-- ===== src/Simulation/Parse.antt =====
-- The parsers of the evaluator's inputs (packages/simulation-core/src/model.ts): the shared checks,
-- and points, rectangles, zones, rules and scenario templates.
use rovaulta.Domain.Schemas.{current_version, is_text, legacy_version}
use rovaulta.Domain.Canonical.{is_safe}
use rovaulta.Domain.Identifiers.{parse_identifier}
use rovaulta.Prelude.Int.{ℤ, leb_ℤ, pos, negsuc, pos_part, ltb_ℤ}
use rovaulta.Simulation.Model.{
  RectangleMm, PointMm, WarehouseZone, SafetyRule, ScenarioTemplate, max_speed_mm_per_second,
  max_payload_grams, max_abs_coordinate_mm, restricted_zone, site_speed_limit, zone_speed_limit,
  payload_zone_restriction,
}
use rovaulta.Errors.{
  Result, ok, reject, ◌>>=◌, or_throw, protocol, malformed_object, ◌>>◌, require, fail_protocol,
  unsupported_version,
}
use rovaulta.Domain.Value.{
  Value, Items, Fields, Dialect, expect_data_object, hole, arr, integer, resolve_version, get, item,
  only_known, nil, has_own,
}
use rovaulta.Prelude.{
  Str, Bool, List, str_eq, Option, ℕ, false, ◌||◌, some, ◌∷◌, codes, ◌&&◌, str_lt, [], suc,
  if◌then◌else◌, any, none, ◌-◌, ltb, ◌==◌, not, ◌+◌, all,
}

-- `compareCodeUnits(left, right) <= 0`
abbrev pub code_units_le : Str → Str → Bool
code_units_le left right = str_eq left right || str_lt left right

-- `expectExactObject`
unfoldable pub expect_exact_object : Value → List Str → Result Fields
expect_exact_object input keys = do
  fs ← expect_data_object input
  require (only_known keys fs) (protocol malformed_object)
  require (all (λ k. has_own k fs) keys) (protocol malformed_object)
  ok fs

-- The items of an array; `none` where it is sparse.
abbrev pub items_of : Items → Option (List Value)
items_of nil = some []
items_of (hole xs) = none
items_of (item v xs) = elim (items_of xs) [ none ↦ none | some vs ↦ some (v ∷ vs) ]

abbrev pub count_items : Items → ℕ
count_items nil = 0
count_items (hole xs) = suc (count_items xs)
count_items (item v xs) = suc (count_items xs)

unfoldable pub expect_array : Value → ℕ → Result (List Value)
expect_array (arr ordinary data_items xs) maximum = do
  require ordinary (protocol malformed_object)
  reject (count_items xs == 0 || ltb maximum (count_items xs)) (protocol malformed_object)
  vs ← or_throw (items_of xs) (protocol malformed_object)
  require data_items (protocol malformed_object)
  ok vs
expect_array _ maximum = fail_protocol malformed_object

unfoldable pub expect_integer : Value → ℤ → ℤ → Result ℤ
expect_integer (integer n) minimum maximum =
    if is_safe n && not (ltb_ℤ n minimum || ltb_ℤ maximum n)
    then ok n
    else fail_protocol malformed_object
expect_integer _ minimum maximum = fail_protocol malformed_object

-- An integer from a natural number to another.
unfoldable pub expect_natural : Value → ℕ → ℕ → Result ℕ
unfolding expect_integer
expect_natural v minimum maximum = do
  n ← expect_integer v (pos minimum) (pos maximum)
  ok (pos_part n)

-- `expectVersion`
unfoldable pub expect_version : Value → Str → Result Dialect
expect_version v suffix =
    or_throw (resolve_version v (current_version suffix) (legacy_version suffix))
      (protocol unsupported_version)

-- `array.map(parse)`, where a parse may throw
unfoldable pub traverse {ℓ κ} :
    {A : Type ℓ} {B : Type κ} → (A → Result B) → List A → Result (List B)
traverse parse [] = ok []
traverse parse (x ∷ xs) = do y ← parse x; ys ← traverse parse xs; ok (y ∷ ys)

-- `new Set(values).size !== values.length`
abbrev pub has_duplicates : List Str → Bool
has_duplicates [] = false
has_duplicates (x ∷ xs) = any (str_eq x) xs || has_duplicates xs

abbrev pub assert_unique_ids : List Str → Result (Unit {0})
assert_unique_ids values = reject (has_duplicates values) (protocol malformed_object)

abbrev pub parse_zone_id : Value → Result Str
parse_zone_id = parse_identifier (codes "zone")

abbrev pub parse_rule_id : Value → Result Str
parse_rule_id = parse_identifier (codes "rule")

abbrev pub parse_scenario_id : Value → Result Str
parse_scenario_id = parse_identifier (codes "scenario")

abbrev pub parse_coordinate : Value → Result ℤ
parse_coordinate v =
    expect_integer v (negsuc (max_abs_coordinate_mm - 1)) (pos max_abs_coordinate_mm)

abbrev pub parse_speed : Value → Result ℕ
parse_speed v = expect_natural v 0 max_speed_mm_per_second

abbrev pub parse_payload : Value → Result ℕ
parse_payload v = expect_natural v 0 max_payload_grams

unfoldable pub parse_point_mm : Value → Result PointMm
parse_point_mm input = do
  fs ← expect_exact_object input (codes "xMm" ∷ codes "yMm" ∷ [])
  x ← parse_coordinate (get (codes "xMm") fs)
  y ← parse_coordinate (get (codes "yMm") fs)
  ok (record { x_mm = x; y_mm = y })

unfoldable pub parse_rectangle_mm : Value → Result RectangleMm
parse_rectangle_mm input = do
  fs ←
      expect_exact_object input
        (codes "minXmm" ∷ codes "minYmm" ∷ codes "maxXmm" ∷ codes "maxYmm" ∷ [])
  min_x ← parse_coordinate (get (codes "minXmm") fs)
  min_y ← parse_coordinate (get (codes "minYmm") fs)
  max_x ← parse_coordinate (get (codes "maxXmm") fs)
  max_y ← parse_coordinate (get (codes "maxYmm") fs)
  reject (leb_ℤ max_x min_x || leb_ℤ max_y min_y) (protocol malformed_object)
  ok (record { min_x_mm = min_x; min_y_mm = min_y; max_x_mm = max_x; max_y_mm = max_y })

abbrev pub rectangle_contains_rectangle : RectangleMm → RectangleMm → Bool
rectangle_contains_rectangle outer inner =
    leb_ℤ outer.min_x_mm inner.min_x_mm
    && leb_ℤ inner.max_x_mm outer.max_x_mm
    && leb_ℤ outer.min_y_mm inner.min_y_mm
    && leb_ℤ inner.max_y_mm outer.max_y_mm

unfoldable pub parse_zone : Value → Result WarehouseZone
parse_zone input = do
  fs ← expect_exact_object input (codes "zoneId" ∷ codes "bounds" ∷ [])
  zone ← parse_zone_id (get (codes "zoneId") fs)
  bounds ← parse_rectangle_mm (get (codes "bounds") fs)
  ok (record { zone_id = zone; bounds = bounds })

-- The four cases of the `switch` in `parseRule`, after the rule's id is read.
parse_restricted_zone : Value → Str → Result SafetyRule
parse_restricted_zone input rule = do
  fs ← expect_exact_object input (codes "ruleId" ∷ codes "type" ∷ codes "zoneId" ∷ [])
  zone ← parse_zone_id (get (codes "zoneId") fs)
  ok (restricted_zone rule zone)

parse_site_speed_limit : Value → Str → Result SafetyRule
parse_site_speed_limit input rule = do
  fs ← expect_exact_object input (codes "ruleId" ∷ codes "type" ∷ codes "maximumMmPerSecond" ∷ [])
  maximum ← parse_speed (get (codes "maximumMmPerSecond") fs)
  ok (site_speed_limit rule maximum)

parse_zone_speed_limit : Value → Str → Result SafetyRule
parse_zone_speed_limit input rule = do
  fs ←
      expect_exact_object input
        (codes "ruleId" ∷ codes "type" ∷ codes "zoneId" ∷ codes "maximumMmPerSecond" ∷ [])
  zone ← parse_zone_id (get (codes "zoneId") fs)
  maximum ← parse_speed (get (codes "maximumMmPerSecond") fs)
  ok (zone_speed_limit rule zone maximum)

parse_payload_zone_restriction : Value → Str → Result SafetyRule
parse_payload_zone_restriction input rule = do
  fs ←
      expect_exact_object input
        (codes "ruleId" ∷ codes "type" ∷ codes "zoneId" ∷ codes "payloadGreaterThanGrams" ∷ [])
  zone ← parse_zone_id (get (codes "zoneId") fs)
  threshold ← parse_payload (get (codes "payloadGreaterThanGrams") fs)
  ok (payload_zone_restriction rule zone threshold)

unfoldable pub parse_rule : Value → Result SafetyRule
unfolding parse_restricted_zone parse_site_speed_limit parse_zone_speed_limit
    parse_payload_zone_restriction
parse_rule input = do
  base ← expect_data_object input
  rule ← parse_rule_id (get (codes "ruleId") base)
  let kind = get (codes "type") base
  if is_text kind (codes "restricted-zone")
      then parse_restricted_zone input rule
      else if is_text kind (codes "site-speed-limit")
      then parse_site_speed_limit input rule
      else if is_text kind (codes "zone-speed-limit")
      then parse_zone_speed_limit input rule
      else if is_text kind (codes "payload-zone-restriction")
      then parse_payload_zone_restriction input rule
      else fail_protocol malformed_object

unfoldable pub parse_scenario_template : Value → Result ScenarioTemplate
parse_scenario_template input = do
  fs ←
      expect_exact_object input
        (codes "scenarioId" ∷ codes "basePayloadGrams" ∷ codes "payloadVariationGrams" ∷ [])
  base ← parse_payload (get (codes "basePayloadGrams") fs)
  variation ← parse_payload (get (codes "payloadVariationGrams") fs)
  reject (ltb base variation || ltb max_payload_grams (base + variation))
      (protocol malformed_object)
  scenario ← parse_scenario_id (get (codes "scenarioId") fs)
  ok (record {
    scenario_id = scenario;
    base_payload_grams = base;
    payload_variation_grams = variation;
  })
