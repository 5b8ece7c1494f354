-- ===== src/Simulation/Envelope/Valid.antt =====
-- What an accepted envelope satisfies (packages/simulation-core/src/model.ts).
use rovaulta.Simulation.Envelope.Items.{AreItemsOf, traverse-AreParsed}
use rovaulta.Simulation.Envelope.Order.{
  all-All, IsInside, id_of, rectangle_contains_rectangle-IsInside, AreInOrder, IsSorted-AreInOrder,
  IsAtMost, rule_id-id_of, zone_le-IsAtMost, AreDistinct, has_duplicates-AreDistinct, IsRuleAtMost,
  rule_le-IsRuleAtMost, NamesZoneOf, names_known_zone-NamesZoneOf,
}
use rovaulta.Errors.{
  ok, Result-cases, err, >>-eq-ok, require, protocol, malformed_object, ok-injective,
}
use rovaulta.Domain.Value.{Value, get, Fields}
use rovaulta.Simulation.Envelope.{
  parse_zones, parse_rules, rule_le, WarehouseZone, Value, rectangle_contains_rectangle, ok,
  names_known_zone, zone_le, expect_array, zone_ids, rule_id, max_zones, rule_ids, max_rules,
  traverse, parse_zone, parse_rule, assert_unique_ids, parse_confidential_evaluation_envelope,
  expect_exact_object, envelope_keys, expect_version, envelope_suffix, parse_rectangle_mm,
}
use rovaulta.Simulation.Parse.{
  code_units_le, rectangle_contains_rectangle, has_duplicates, expect_array, traverse, parse_zone,
  parse_rule, assert_unique_ids, expect_exact_object, expect_version, parse_rectangle_mm,
}
use rovaulta.Simulation.Model.{
  ConfidentialEvaluationEnvelope, SafetyRule, RectangleMm, WarehouseZone, rule_id, max_zones,
  max_rules,
}
use rovaulta.Prelude.{
  Str, List, all, ◌≡◌, false, true, arith, str_lt_total, inr, inl, codes, All, map, ◌∷◌, [], refl,
  ◌∙◌, ap,
}
use rovaulta.Prelude.Sort.{sort, IsSorted, sort-IsSorted, sort-perm}

-- Zones inside the warehouse, in order of their ids, which are distinct; rules in order of family
-- and id, with distinct ids, that name only these zones.
pub record IsValidEnvelope (e : ConfidentialEvaluationEnvelope) : Type 0 where
  pub zones_inside : All (λ z. IsInside e.warehouse_bounds z.bounds) e.zones
  pub zones_in_order : AreInOrder (λ a b. IsAtMost a.zone_id b.zone_id) e.zones
  pub zones_distinct : AreDistinct (map (λ z. z.zone_id) e.zones)
  pub rules_in_order : AreInOrder IsRuleAtMost e.rules
  pub rules_distinct : AreDistinct (map id_of e.rules)
  pub rules_known : All (NamesZoneOf e.zones) e.rules

-- The bounds, the zones and the rules of the envelope are all that the input holds of them.
pub record IsEnvelopeOf (input : Value) (e : ConfidentialEvaluationEnvelope) : Type 0 where
  pub fields : Fields
  pub fields_read : expect_exact_object input envelope_keys ≡ ok fields
  pub bounds_read :
      parse_rectangle_mm (get (codes "warehouseBounds") fields) ≡ ok e.warehouse_bounds
  pub zones_read : AreItemsOf parse_zone max_zones (get (codes "zones") fields) e.zones
  pub rules_read : AreItemsOf parse_rule max_rules (get (codes "rules") fields) e.rules

code_units_total : (s t : Str) → code_units_le s t ≡ false → code_units_le t s ≡ true
code_units_total s t h = ground (arith, str_lt_total s t)

rule_total : (a b : SafetyRule) → rule_le a b ≡ false → rule_le b a ≡ true
rule_total a b h = ground (arith, code_units_total (rule_id a) (rule_id b))

-- The zones that `parse_zones` returns.
unfoldable pub AreZonesIn : Value → RectangleMm → List WarehouseZone → Type 0
AreZonesIn v bounds zones =
    AreItemsOf parse_zone max_zones v zones
    × (all (λ z. rectangle_contains_rectangle bounds z.bounds) zones ≡ true)
    × IsSorted zone_le zones
    × (has_duplicates (zone_ids zones) ≡ false)

zones_lem :
    (v : Value) (bounds : RectangleMm) (zones : List WarehouseZone)
    → parse_zones v bounds ≡ ok zones
    → AreZonesIn v bounds zones
unfolding parse_zones AreZonesIn
zones_lem v bounds zones h = elim (Result-cases (expect_array v max_zones)) [
  | inr (x, e) ↦ absurd (let q : err x ≡ ok zones = rw e at h in cc)
  | inl (vs, e) ↦ elim (Result-cases (traverse parse_zone vs)) [
    | inr (x, f) ↦ absurd (let q : err x ≡ ok zones = rw (e, f) at h in cc)
    | inl (ps, f) ↦
        let zs = sort zone_le ps in
        let (k, rest) = >>-eq-ok (assert_unique_ids (zone_ids zs)) _ (rw (e, f) at h) in
        let (k', last) =
          >>-eq-ok
            (require (all (λ z. rectangle_contains_rectangle bounds z.bounds) zs)
              (protocol malformed_object))
            _ rest in
        let all_hold : AreZonesIn v bounds zs = (
          (vs, ps, e, traverse-AreParsed parse_zone vs ps f, sort-perm zone_le ps),
          ground arith,
          sort-IsSorted zone_le (λ a b. code_units_total a.zone_id b.zone_id) ps,
          ground arith,
        ) in
        rw (ok-injective last) at all_hold
  ]
]

-- The rules that `parse_rules` returns.
unfoldable pub AreRulesOf : Value → List WarehouseZone → List SafetyRule → Type 0
AreRulesOf v zones rules =
    AreItemsOf parse_rule max_rules v rules
    × (all (names_known_zone zones) rules ≡ true)
    × IsSorted rule_le rules
    × (has_duplicates (rule_ids rules) ≡ false)

rules_lem :
    (v : Value) (zones : List WarehouseZone) (rules : List SafetyRule)
    → parse_rules v zones ≡ ok rules
    → AreRulesOf v zones rules
unfolding parse_rules AreRulesOf
rules_lem v zones rules h = elim (Result-cases (expect_array v max_rules)) [
  | inr (x, e) ↦ absurd (let q : err x ≡ ok rules = rw e at h in cc)
  | inl (vs, e) ↦ elim (Result-cases (traverse parse_rule vs)) [
    | inr (x, f) ↦ absurd (let q : err x ≡ ok rules = rw (e, f) at h in cc)
    | inl (ps, f) ↦
        let rs = sort rule_le ps in
        let (k, rest) = >>-eq-ok (assert_unique_ids (rule_ids rs)) _ (rw (e, f) at h) in
        let (k', last) =
          >>-eq-ok (require (all (names_known_zone zones) rs) (protocol malformed_object)) _ rest in
        let all_hold : AreRulesOf v zones rs = (
          (vs, ps, e, traverse-AreParsed parse_rule vs ps f, sort-perm rule_le ps),
          ground arith,
          sort-IsSorted rule_le rule_total ps,
          ground arith,
        ) in
        rw (ok-injective last) at all_hold
  ]
]

-- The tests of the parser hold of the envelope that it returns.
pub envelope_tests :
    (input : Value) (envelope : ConfidentialEvaluationEnvelope)
    → parse_confidential_evaluation_envelope input ≡ ok envelope
    → (fields : Fields) × (expect_exact_object input envelope_keys ≡ ok fields)
      × (parse_rectangle_mm (get (codes "warehouseBounds") fields) ≡ ok envelope.warehouse_bounds)
      × AreZonesIn (get (codes "zones") fields) envelope.warehouse_bounds envelope.zones
      × AreRulesOf (get (codes "rules") fields) envelope.zones envelope.rules
unfolding parse_confidential_evaluation_envelope AreZonesIn AreRulesOf
envelope_tests input envelope h = elim (Result-cases (expect_exact_object input envelope_keys)) [
  | inr (x, e) ↦ absurd (let q : err x ≡ ok envelope = rw e at h in cc)
  | inl (fs, e) ↦
      elim (Result-cases (expect_version (get (codes "schemaVersion") fs) envelope_suffix)) [
        | inr (x, f) ↦ absurd (let q : err x ≡ ok envelope = rw (e, f) at h in cc)
        | inl (d, f) ↦ elim (Result-cases (parse_rectangle_mm (get (codes "warehouseBounds") fs))) [
          | inr (x, g) ↦ absurd (let q : err x ≡ ok envelope = rw (e, f, g) at h in cc)
          | inl (bounds, g) ↦ elim (Result-cases (parse_zones (get (codes "zones") fs) bounds)) [
            | inr (x, k) ↦ absurd (let q : err x ≡ ok envelope = rw (e, f, g, k) at h in cc)
            | inl (zones, k) ↦ elim (Result-cases (parse_rules (get (codes "rules") fs) zones)) [
              | inr (x, l) ↦ absurd (let q : err x ≡ ok envelope = rw (e, f, g, k, l) at h in cc)
              | inl (rules, l) ↦
                  let bs : bounds ≡ envelope.warehouse_bounds = ground arith in
                  let zs : zones ≡ envelope.zones = ground arith in
                  let rs : rules ≡ envelope.rules = ground arith in
                  let there = zones_lem (get (codes "zones") fs) bounds zones k in
                  let there' = rules_lem (get (codes "rules") fs) zones rules l in
                  (fs, e, g ∙ ap ok bs, rw (bs, zs) at there, rw (zs, rs) at there')
            ]
          ]
        ]
      ]
]

map-id_of : (rules : List SafetyRule) → rule_ids rules ≡ map id_of rules
map-id_of [] = refl
map-id_of (r ∷ rs) = rw (rule_id-id_of r, map-id_of rs) refl

-- The envelope that `parseConfidentialEvaluationEnvelope` returns, of whatever value, has the bounds
-- of this value, and its zones and rules, each list in some order. The four sides of the zones lie
-- within the warehouse's; the ids of the zones are distinct and in order by code units; the ids of
-- the rules are distinct; the rules name only these zones and are in order of their family and, in
-- one family, of their ids.
pub parse_confidential_evaluation_envelope-IsValidEnvelope :
    (input : Value) (envelope : ConfidentialEvaluationEnvelope)
    → parse_confidential_evaluation_envelope input ≡ ok envelope
    → IsEnvelopeOf input envelope × IsValidEnvelope envelope
unfolding AreZonesIn AreRulesOf
parse_confidential_evaluation_envelope-IsValidEnvelope input envelope h =
    let (fs, e, g, (items, inside, sorted, distinct), (items', known, sorted', distinct')) =
      envelope_tests input envelope h in
    (
      record {
        fields = fs;
        fields_read = e;
        bounds_read = g;
        zones_read = items;
        rules_read = items';
      },
      record {
        zones_inside =
            all-All _ _
              (λ z. rectangle_contains_rectangle-IsInside envelope.warehouse_bounds z.bounds)
              envelope.zones inside;
        zones_in_order = IsSorted-AreInOrder _ _ zone_le-IsAtMost envelope.zones sorted;
        zones_distinct = has_duplicates-AreDistinct (zone_ids envelope.zones) distinct;
        rules_in_order = IsSorted-AreInOrder _ _ rule_le-IsRuleAtMost envelope.rules sorted';
        rules_distinct =
            rw (map-id_of envelope.rules) at
              (has_duplicates-AreDistinct (rule_ids envelope.rules) distinct');
        rules_known =
            all-All _ _ (names_known_zone-NamesZoneOf envelope.zones) envelope.rules known;
      },
    )
