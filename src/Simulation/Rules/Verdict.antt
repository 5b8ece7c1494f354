-- ===== src/Simulation/Rules/Verdict.antt =====
-- The loops of `evaluateScenario`: when a scenario is reported without a violation.
use rovaulta.Simulation.Rules.Compliance.{IsKnown, Obeys, evaluate_rule-Decides}
use rovaulta.Errors.{Result, ok, >>-eq-ok}
use rovaulta.Simulation.Rules.{
  RuleViolation, Result, scan_rules, scan_steps, violation_le, evaluate_scenario,
  assert_trace_inside_warehouse,
}
use rovaulta.Simulation.Model.{
  GeneratedScenario, RobotBehaviorTrace, WarehouseZone, SafetyRule, rule_id,
  ConfidentialEvaluationEnvelope,
}
use rovaulta.Prelude.{
  Str, List, ◌≢◌, ◌++◌, [], ◌∷◌, ◌≡◌, ℕ, ◌<◌, length, All, Bool-cases, any, ◌⊎◌, str_eq, inl, inr,
  Option-cases, ◌≤◌, ◌↔◌, none, ◌+◌, refl, suc, arith, zero, ltb, sym, ltb→lt, ◌∙◌, ap,
}
use rovaulta.Prelude.Sort.{sort, length-sort}

-- Behind both loops: the list of violations, once not empty, never is again.
abbrev pub IsDirty : List RuleViolation → Type 0
IsDirty vs = vs ≢ []

sort_empty : (vs : List RuleViolation) → sort violation_le vs ≡ [] → vs ≡ []
sort_empty [] e = refl
sort_empty (v ∷ vs) e =
    let q : suc (length vs) ≡ zero = sym (length-sort violation_le (v ∷ vs)) ∙ ap length e in cc

sort-nil : sort violation_le [] ≡ []
unfolding sort
sort-nil = refl

append_one_lem : (vs : List RuleViolation) (v : RuleViolation) → IsDirty (vs ++ v ∷ [])
append_one_lem [] v e = cc
append_one_lem (x ∷ vs) v e = cc

module _ (scenario : GeneratedScenario) (trace : RobotBehaviorTrace)
    (zones : List WarehouseZone) where
  -- A scan that throws nothing and ends with violations.
  abbrev pub EndsDirty : Result (List Str × List RuleViolation) → Type 0
  EndsDirty result = (s : List Str × List RuleViolation) × (result ≡ ok s) × IsDirty (s.1)

  abbrev pub EndsClean : Result (List Str × List RuleViolation) → Type 0
  EndsClean result = result ≡ ok ([], [])

  scan_rules-IsDirty :
      (rules : List SafetyRule) (i : ℕ) (failed : List Str) (vs : List RuleViolation)
      → i < length trace.steps
      → All (IsKnown scenario trace zones) rules
      → IsDirty vs
      → EndsDirty (scan_rules scenario trace zones rules i failed vs)
  unfolding scan_rules
  scan_rules-IsDirty [] i failed vs h known d = ((failed, vs), refl, d)
  scan_rules-IsDirty (rule ∷ rules) i failed vs h known d =
      elim (Bool-cases (any (str_eq (rule_id rule)) failed)) [
        | inl e ↦ rw (scan_rules, e) (scan_rules-IsDirty rules i failed vs h (known.1) d)
        | inr e ↦
            rw (scan_rules, e)
              (let (o, q, w) = evaluate_rule-Decides scenario trace zones rule i h (known.0) in
                elim (Option-cases o) [
                  | inl n ↦ rw (q, n) (scan_rules-IsDirty rules i failed vs h (known.1) d)
                  | inr (v, n) ↦
                      rw (q, n)
                        (scan_rules-IsDirty rules i (rule_id rule ∷ failed) (vs ++ v ∷ []) h
                          (known.1) (append_one_lem vs v))
                ])
      ]

  scan_rules_clean :
      (rules : List SafetyRule) (i : ℕ)
      → i < length trace.steps
      → All (IsKnown scenario trace zones) rules
      → (EndsClean (scan_rules scenario trace zones rules i [] [])
          × All (Obeys scenario trace zones i) rules)
        ⊎ (EndsDirty (scan_rules scenario trace zones rules i [] [])
            × (¬ All (Obeys scenario trace zones i) rules))
  unfolding scan_rules
  scan_rules_clean [] i h known = inl (refl, tt)
  scan_rules_clean (rule ∷ rules) i h known =
      let (o, q, w) = evaluate_rule-Decides scenario trace zones rule i h (known.0) in
      elim (Option-cases o) [
        | inl n ↦
            rw (q, n)
              (elim (scan_rules_clean rules i h (known.1)) [
                | inl p ↦ inl (p.0, (w.0 n, p.1))
                | inr p ↦ inr (p.0, λ b. p.1 (b.1))
              ])
        | inr (v, n) ↦
            rw (q, n)
              (inr (
                scan_rules-IsDirty rules i (rule_id rule ∷ []) (v ∷ []) h (known.1)
                    (append_one_lem [] v),
                λ b. let e : o ≡ none = w.1 (b.0) in cc,
              ))
      ]

  -- From a step on, every rule is obeyed.
  abbrev pub ObeysFrom : List SafetyRule → ℕ → ℕ → Type 0
  ObeysFrom rules left i = (j : ℕ) → i ≤ j → j < i + left → All (Obeys scenario trace zones j) rules

  from_next :
      (rules : List SafetyRule) (left i : ℕ)
      → All (Obeys scenario trace zones i) rules
      → ObeysFrom rules left (suc i)
      → ObeysFrom rules (suc left) i
  from_next rules left i p w j a b = elim (Bool-cases (ltb i j)) [
    | inl e ↦ w j (ltb→lt i j e) (omega arith)
    | inr e ↦ let q : i ≡ j = ground arith in rw (sym q) p
  ]

  -- The outer loop throws nothing, and finds nothing exactly if the remaining steps obey every rule.
  abbrev pub Finds : Result (List RuleViolation) → Type 0 → Type 0
  Finds result P = (vs : List RuleViolation) × (result ≡ ok vs) × ((vs ≡ []) ↔ P)

  scan_steps-IsDirty :
      (rules : List SafetyRule) (left i : ℕ) (failed : List Str) (vs : List RuleViolation)
      → i + left ≡ length trace.steps
      → All (IsKnown scenario trace zones) rules
      → IsDirty vs
      → (ws : List RuleViolation) × (scan_steps scenario trace zones rules left i failed vs ≡ ok ws)
        × IsDirty ws
  unfolding scan_steps
  scan_steps-IsDirty rules zero i failed vs h known d = (vs, refl, d)
  scan_steps-IsDirty rules (suc left) i failed vs h known d =
      let (s, e, d') = scan_rules-IsDirty rules i failed vs (omega (arith, h)) known d in
      rw e (scan_steps-IsDirty rules left (suc i) (s.0) (s.1) (omega (arith, h)) known d')

  scan_steps_clean :
      (rules : List SafetyRule) (left i : ℕ)
      → i + left ≡ length trace.steps
      → All (IsKnown scenario trace zones) rules
      → Finds (scan_steps scenario trace zones rules left i [] []) (ObeysFrom rules left i)
  unfolding scan_steps
  scan_steps_clean rules zero i h known =
      ([], refl, (λ e j p q. absurd (let r : j < j = omega arith in omega arith), λ a. refl))
  scan_steps_clean rules (suc left) i h known =
      elim (scan_rules_clean rules i (omega (arith, h)) known) [
        | inl p ↦
            let (ws, e, w) = scan_steps_clean rules left (suc i) (omega (arith, h)) known in
            rw (p.0) (
              ws,
              e,
              (
                λ z j a b. from_next rules left i (p.1) (w.0 z) j a b,
                λ a. w.1 (λ j b c. a j (omega arith) (omega arith)),
              ),
            )
        | inr p ↦
            let (s, e, d) = p.0 in
            let (ws, f, d') =
              scan_steps-IsDirty rules left (suc i) (s.0) (s.1) (omega (arith, h)) known d in
            rw e (ws, f, (λ z. absurd (d' z), λ a. absurd (p.1 (a i (omega arith) (omega arith)))))
      ]

-- A trace that stays in the warehouse is evaluated without a throw when every rule names a known
-- zone, and no violation is reported exactly if every step of the trace obeys every rule.
pub evaluate_scenario-clear :
    (scenario : GeneratedScenario) (trace : RobotBehaviorTrace)
    (envelope : ConfidentialEvaluationEnvelope) (zones : List WarehouseZone)
    → assert_trace_inside_warehouse trace envelope.warehouse_bounds ≡ ok tt
    → All (IsKnown scenario trace zones) envelope.rules
    → Finds scenario trace zones
        (evaluate_scenario scenario trace envelope zones)
        ((j : ℕ) → j < length trace.steps → All (Obeys scenario trace zones j) envelope.rules)
unfolding evaluate_scenario
evaluate_scenario-clear scenario trace envelope zones inside known =
    let (vs, e, w) =
      scan_steps_clean scenario trace zones envelope.rules (length trace.steps) 0 (omega arith)
        known in
    rw (inside, e)
      (
        sort violation_le vs,
        refl,
        (
          λ z j h. w.0 (sort_empty vs z) j (omega arith) (omega (arith, h)),
          λ a. rw (w.1 (λ j p q. a j (omega (arith, q)))) (sort-nil),
        ),
      )

-- What is evaluated to the end stays in the warehouse.
pub inside_of :
    (scenario : GeneratedScenario) (trace : RobotBehaviorTrace)
    (envelope : ConfidentialEvaluationEnvelope) (zones : List WarehouseZone)
    (vs : List RuleViolation)
    → evaluate_scenario scenario trace envelope zones ≡ ok vs
    → assert_trace_inside_warehouse trace envelope.warehouse_bounds ≡ ok tt
unfolding evaluate_scenario
inside_of scenario trace envelope zones vs h =
    (>>-eq-ok (assert_trace_inside_warehouse trace envelope.warehouse_bounds) _ h).0
