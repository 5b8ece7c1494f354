-- ===== src/Simulation/Evaluator/Compliance.antt =====
-- The verdict of an evaluation, against the rules that every step of every trace must obey.
use rovaulta.Simulation.Rules.Compliance.{Obeys}
use rovaulta.Errors.{ok, ok-injective, err, protocol, binding_mismatch, Result-cases}
use rovaulta.Simulation.Envelope.{names_known_zone}
use rovaulta.Simulation.Rules.{RuleViolation, zone_named, evaluate_scenario}
use rovaulta.Simulation.Evaluator.{
  evaluate_scenarios, RobotBehaviorTrace, RuleViolation, GeneratedScenario, trace_named,
  ScenarioEvaluationSummary, ok, evaluate_scenario,
}
use rovaulta.Simulation.Model.{
  ConfidentialEvaluationEnvelope, WarehouseZone, RobotBehaviorTrace, SafetyRule, GeneratedScenario,
  rule_zone, site_speed_limit, restricted_zone, zone_speed_limit, payload_zone_restriction,
}
use mathlib.Core.Option.{some-injective, some, none}
use rovaulta.Prelude.{
  Str, List, any, ◌++◌, str_eq, all, ◌≡◌, All, true, [], some, ℕ, ◌∷◌, ◌↔◌, ◌<◌, Option-cases,
  arith, refl, length, inr, sym, inl, Bool-cases, ◌∙◌, none,
}
use rovaulta.Simulation.Rules.Verdict.{evaluate_scenario-clear, inside_of}

-- At every step of its trace the scenario obeys every rule of the envelope.
abbrev pub Complies :
    ConfidentialEvaluationEnvelope → List RobotBehaviorTrace → GeneratedScenario → Type 0
Complies envelope traces s =
    (t : RobotBehaviorTrace)
    → trace_named s.scenario_id traces ≡ some t
    → (j : ℕ) → j < length t.steps
    → All (Obeys s t envelope.zones j) envelope.rules

-- The zone that the rule names is one of the zones.
abbrev pub NamesZone : List WarehouseZone → SafetyRule → Type 0
NamesZone zones rule =
    (z : Str) → rule_zone rule ≡ some z → (zone : WarehouseZone) × (zone_named z zones ≡ some zone)

zone_named_lem :
    (id : Str) (zones : List WarehouseZone)
    → any (λ z. str_eq z.zone_id id) zones ≡ true
    → (zone : WarehouseZone) × (zone_named id zones ≡ some zone)
zone_named_lem id [] h = cc
zone_named_lem id (z ∷ zs) h = elim (Option-cases (zone_named id zs)) [
  | inr (found, e) ↦ (found, rw e refl)
  | inl n ↦ elim (Bool-cases (str_eq z.zone_id id)) [
    | inl e ↦ (z, rw (n, e) refl)
    | inr e ↦
        let (zone, f) = zone_named_lem id zs (ground arith) in
        absurd (let q : none ≡ some zone = sym n ∙ f in cc)
  ]
]

names_known_zone_lem :
    (zones : List WarehouseZone) (rule : SafetyRule)
    → names_known_zone zones rule ≡ true
    → NamesZone zones rule
names_known_zone_lem zones (site_speed_limit r m) h z e = cc
names_known_zone_lem zones (restricted_zone r y) h z e =
    rw (sym (some-injective _ _ e)) (zone_named_lem y zones h)
names_known_zone_lem zones (zone_speed_limit r y m) h z e =
    rw (sym (some-injective _ _ e)) (zone_named_lem y zones h)
names_known_zone_lem zones (payload_zone_restriction r y m) h z e =
    rw (sym (some-injective _ _ e)) (zone_named_lem y zones h)

pub all_known :
    (zones : List WarehouseZone) (rules : List SafetyRule)
    → all (names_known_zone zones) rules ≡ true
    → All (NamesZone zones) rules
all_known zones [] h = tt
all_known zones (r ∷ rs) h =
    (names_known_zone_lem zones r (ground arith), all_known zones rs (ground arith))

append_empty : (vs ws : List RuleViolation) → vs ++ ws ≡ [] → (vs ≡ []) × (ws ≡ [])
append_empty [] ws h = (refl, h)
append_empty (v ∷ vs) ws h = cc

complies_lem :
    (envelope : ConfidentialEvaluationEnvelope) (traces : List RobotBehaviorTrace)
    (s : GeneratedScenario) (t : RobotBehaviorTrace) (ws : List RuleViolation)
    → All (NamesZone envelope.zones) envelope.rules
    → trace_named s.scenario_id traces ≡ some t
    → evaluate_scenario s t envelope envelope.zones ≡ ok ws
    → (ws ≡ []) ↔ Complies envelope traces s
complies_lem envelope traces s t ws known n e =
    let inside = inside_of s t envelope envelope.zones ws e in
    let (vs, f, w) = evaluate_scenario-clear s t envelope envelope.zones inside known in
    let q : vs ≡ ws = ok-injective (sym f ∙ e) in
    let same : (t' : RobotBehaviorTrace) → trace_named s.scenario_id traces ≡ some t' → t ≡ t' =
      λ t' m. some-injective _ _ (sym n ∙ m) in
    (
      λ z t' m j k. rw (sym (same t' m)) (w.0 (q ∙ z) j (rw (same t' m) k)),
      λ a. sym q ∙ w.1 (λ j k. a t n j k),
    )

pub evaluate_scenarios_lem :
    (envelope : ConfidentialEvaluationEnvelope) (traces : List RobotBehaviorTrace)
    (ss : List GeneratedScenario) (found : List ScenarioEvaluationSummary × List RuleViolation)
    → All (NamesZone envelope.zones) envelope.rules
    → evaluate_scenarios envelope traces ss ≡ ok found
    → (found.1 ≡ []) ↔ All (Complies envelope traces) ss
unfolding evaluate_scenarios
evaluate_scenarios_lem envelope traces [] found known h =
    let q : found.1 ≡ [] = ground arith in (λ e. tt, λ a. q)
evaluate_scenarios_lem envelope traces (s ∷ ss) found known h =
    elim (Option-cases (trace_named s.scenario_id traces)) [
      | inl n ↦ absurd (let q : ok found ≡ err (protocol binding_mismatch) = ground arith in cc)
      | inr (t, n) ↦ elim (Result-cases (evaluate_scenario s t envelope envelope.zones)) [
        | inr (x, e) ↦ absurd (let q : ok found ≡ err x = ground arith in cc)
        | inl (ws, e) ↦ elim (Result-cases (evaluate_scenarios envelope traces ss)) [
          | inr (x, f) ↦ absurd (let q : ok found ≡ err x = ground arith in cc)
          | inl ((sums', rest), f) ↦
              let q : found.1 ≡ ws ++ rest = ground arith in
              let w = evaluate_scenarios_lem envelope traces ss (sums', rest) known f in
              let u = complies_lem envelope traces s t ws known n e in
              (
                λ z. let (a, b) = append_empty ws rest (sym q ∙ z) in (u.0 a, w.0 b),
                λ a. q ∙ rw (u.1 (a.0), w.1 (a.1)) refl,
              )
        ]
      ]
    ]
