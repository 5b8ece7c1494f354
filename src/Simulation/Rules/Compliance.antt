-- ===== src/Simulation/Rules/Compliance.antt =====
-- What each rule asks of a step, and that `evaluate_rule` decides it.
use rovaulta.Simulation.Geometry.{
  point_inside_closed_rectangle, segment_intersects_closed_rectangle,
}
use rovaulta.Errors.{ok, Result}
use rovaulta.Simulation.Rules.{
  zone_named, observation_for_step, zone_is_entered, observation_intersects_zone, RuleObservation,
  ok, point_inside_closed_rectangle, step_of, point, segment, evaluate_rule, RuleViolation,
  violation, ViolationDetail,
}
use rovaulta.Simulation.Model.{
  GeneratedScenario, RobotTraceStep, RobotBehaviorTrace, WarehouseZone, RectangleMm, SafetyRule,
  rule_zone,
}
use rovaulta.Prelude.{
  Str, List, ℕ, get_elem?, Bool, ◌≡◌, ◌≤◌, ◌<◌, some, length, none, false, true, get_elem?-lt, suc,
  arith, zero, refl, Option, ◌↔◌, leb, if◌then◌else◌, ap, not_iff, imp_iff, leb_iff,
}

-- Does the trace touch the rectangle at a step: by its first point, or by the segment that arrives?
abbrev pub touches : List RobotTraceStep → ℕ → RectangleMm → Bool
touches steps zero r = elim (get_elem? steps 0) [
  | none ↦ false
  | some s ↦ point_inside_closed_rectangle s.position r
]
touches steps (suc i) r = elim (get_elem? steps i) [
  | none ↦ false
  | some p ↦ elim (get_elem? steps (suc i)) [
    | none ↦ false
    | some s ↦ segment_intersects_closed_rectangle p.position s.position r
  ]
]

module _ (scenario : GeneratedScenario) (trace : RobotBehaviorTrace)
    (zones : List WarehouseZone) where
  abbrev pub Enters : Str → ℕ → Type 0
  Enters id i =
      (zone : WarehouseZone) × (zone_named id zones ≡ some zone)
      × (touches trace.steps i zone.bounds ≡ true)

  abbrev pub SpeedAtMost : ℕ → ℕ → Type 0
  SpeedAtMost i maximum =
      (step : RobotTraceStep)
      → get_elem? trace.steps i ≡ some step
      → step.speed_mm_per_second ≤ maximum

  -- The rule holds at the step.
  abbrev pub Obeys : ℕ → SafetyRule → Type 0
  Obeys i (SafetyRule.restricted_zone r z) = ¬ Enters z i
  Obeys i (SafetyRule.site_speed_limit r m) = SpeedAtMost i m
  Obeys i (SafetyRule.zone_speed_limit r z m) = Enters z i → SpeedAtMost i m
  Obeys i (SafetyRule.payload_zone_restriction r z m) = Enters z i → scenario.payload_grams ≤ m

  -- The zone that the rule names is there.
  abbrev pub IsKnown : SafetyRule → Type 0
  IsKnown rule =
      (z : Str)
      → rule_zone rule ≡ some z
      → (zone : WarehouseZone) × (zone_named z zones ≡ some zone)

  observation_of :
      (i : ℕ)
      → i < length trace.steps
      → (o : RuleObservation) × (observation_for_step trace.steps i ≡ ok o) × (step_of o ≡ i)
  unfolding observation_for_step
  observation_of zero h =
      let (s, e) = get_elem?-lt trace.steps 0 h in (point 0 s.position, rw e, refl)
  observation_of (suc i) h =
      let (s, e) = get_elem?-lt trace.steps (suc i) h in
      let (p, f) = get_elem?-lt trace.steps i (omega arith) in
      (segment (suc i) p.position s.position, ground arith, refl)

  entered_of :
      (z : Str) (zone : WarehouseZone) (i : ℕ)
      → zone_named z zones ≡ some zone
      → i < length trace.steps
      → zone_is_entered scenario trace zones z i ≡ ok (touches trace.steps i zone.bounds)
  unfolding zone_is_entered observation_intersects_zone
  entered_of z zone zero n h = let (s, e) = get_elem?-lt trace.steps 0 h in ground arith
  entered_of z zone (suc i) n h =
      let (s, e) = get_elem?-lt trace.steps (suc i) h in
      let (p, f) = get_elem?-lt trace.steps i (omega arith) in ground arith

  -- An outcome of `evaluate_rule` that agrees with the rule.
  abbrev pub Decides : ℕ → SafetyRule → Result (Option RuleViolation) → Type 0
  Decides i rule result = (o : Option RuleViolation) × (result ≡ ok o) × ((o ≡ none) ↔ Obeys i rule)

  -- A violation unless a test passes, where the rule holds exactly if the test passes.
  decided :
      (i : ℕ) (rule : SafetyRule) (test : Bool) (v : RuleViolation)
      → ((test ≡ true) ↔ Obeys i rule)
      → (o : Option RuleViolation) × ((if test then none else some v) ≡ o)
        × ((o ≡ none) ↔ Obeys i rule)
  decided i rule true v w = (none, refl, (λ e. w.0 refl, λ h. refl))
  decided i rule false v w = (
    some v,
    refl,
    (
      λ e. absurd (let q : some v ≡ none = e in cc),
      λ h. absurd (let q : false ≡ true = w.1 h in cc),
    ),
  )

  same_zone :
      (z : Str) (a b : WarehouseZone)
      → zone_named z zones ≡ some a
      → zone_named z zones ≡ some b
      → a ≡ b
  same_zone z a b p q = cc

  -- Whether the named zone is entered decides `Enters`.
  Enters-iff :
      (z : Str) (zone : WarehouseZone) (i : ℕ)
      → zone_named z zones ≡ some zone
      → (touches trace.steps i zone.bounds ≡ true) ↔ Enters z i
  Enters-iff z zone i n = (λ t. (zone, n, t), λ (zone', n', t). rw (same_zone z zone zone' n n') t)

  SpeedAtMost-iff :
      (i m : ℕ) (s : RobotTraceStep)
      → get_elem? trace.steps i ≡ some s
      → (leb s.speed_mm_per_second m ≡ true) ↔ SpeedAtMost i m
  SpeedAtMost-iff i m s e = (λ h step k. ground arith, λ h. ground (arith, h s e))

  -- On a step of the trace a rule that names a known zone throws nothing, and returns no violation
  -- exactly if the step obeys the rule.
  pub evaluate_rule-Decides :
      (rule : SafetyRule) (i : ℕ)
      → i < length trace.steps
      → IsKnown rule
      → Decides i rule (evaluate_rule scenario trace zones rule i)
  unfolding evaluate_rule
  evaluate_rule-Decides (SafetyRule.site_speed_limit r m) i h known =
      let (s, e) = get_elem?-lt trace.steps i h in
      let (ob, f, g) = observation_of i h in
      let v =
        violation scenario trace zones r ob
          (ViolationDetail.site_speed_limit s.speed_mm_per_second m) in
      let (o, q, w) = decided i (SafetyRule.site_speed_limit r m) _ v (SpeedAtMost-iff i m s e) in
      (o, rw (e, f) (ap ok q), w)
  evaluate_rule-Decides (SafetyRule.restricted_zone r z) i h known =
      let (s, e) = get_elem?-lt trace.steps i h in
      let (ob, f, g) = observation_of i h in
      let (zone, n) = known z refl in
      let v = violation scenario trace zones r ob (ViolationDetail.restricted_zone z) in
      let (o, q, w) =
        decided i (SafetyRule.restricted_zone r z) _ v (not_iff _ (Enters-iff z zone i n)) in
      (o, rw (e, f, entered_of z zone i n h) (ap ok q), w)
  evaluate_rule-Decides (SafetyRule.zone_speed_limit r z m) i h known =
      let (s, e) = get_elem?-lt trace.steps i h in
      let (ob, f, g) = observation_of i h in
      let (zone, n) = known z refl in
      let v =
        violation scenario trace zones r ob
          (ViolationDetail.zone_speed_limit z s.speed_mm_per_second m) in
      let (o, q, w) =
        decided i (SafetyRule.zone_speed_limit r z m) _ v
          (imp_iff _ _ (Enters-iff z zone i n) (SpeedAtMost-iff i m s e)) in
      (o, rw (e, f, entered_of z zone i n h) (ap ok q), w)
  evaluate_rule-Decides (SafetyRule.payload_zone_restriction r z m) i h known =
      let (s, e) = get_elem?-lt trace.steps i h in
      let (ob, f, g) = observation_of i h in
      let (zone, n) = known z refl in
      let v =
        violation scenario trace zones r ob
          (ViolationDetail.payload_zone_restriction z scenario.payload_grams m) in
      let (o, q, w) =
        decided i (SafetyRule.payload_zone_restriction r z m) _ v
          (imp_iff _ _ (Enters-iff z zone i n) (leb_iff scenario.payload_grams m)) in
      (o, rw (e, f, entered_of z zone i n h) (ap ok q), w)
