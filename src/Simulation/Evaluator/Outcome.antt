-- ===== src/Simulation/Evaluator/Outcome.antt =====
-- The report of `evaluateSimulation`.
use rovaulta.Simulation.Envelope.Valid.{envelope_tests, AreRulesOf}
use rovaulta.Errors.{ok, ok-injective, Result, Result-cases, err}
use rovaulta.Simulation.Model.{ConfidentialEvaluationEnvelope}
use rovaulta.Simulation.Evaluator.{verdict_of, ConfidentialEvaluationEnvelope, ok}
use rovaulta.Simulation.Rules.{RuleViolation}
use rovaulta.Domain.Value.{
  expect_exact_schema, str, Fields, Value, expect_data_object, get, only_data, Dialect, end,
}
use rovaulta.Domain.Records.{
  Verdict, EvaluationResult, of_result, verdict_text, object, clear, hold, escalate, property,
  of_inputs,
}
use rovaulta.Simulation.Envelope.{parse_confidential_evaluation_envelope, names_known_zone}
use rovaulta.Domain.Schemas.{
  parse_verdict, expect_schema, parse_evaluation_result, result_bindings, current_version,
  legacy_version,
}
use rovaulta.Prelude.{
  Str, List, ◌≡◌, ◌↔◌, all, [], refl, ◌∷◌, true, Bool-cases, sym, codes, inl, ◌∙◌, arith, inr, ◌++◌,
}

verdict_back : (v : Verdict) → parse_verdict (str (verdict_text v)) ≡ ok v
unfolding parse_verdict
verdict_back clear = refl
verdict_back hold = refl
verdict_back escalate = refl

data_object_lem : (fs gs : Fields) → expect_data_object (object fs) ≡ ok gs → gs ≡ fs
unfolding expect_data_object
data_object_lem fs gs h = elim (Bool-cases (only_data fs)) [
  | inl e ↦ ground arith
  | inr e ↦ ground arith
]

-- An object that passes the schema check is given back as it is.
exact_fields :
    (version legacy_version_ : Str) (required_keys binding_keys : List Str) (fs : Fields)
    (found : Fields × Dialect)
    → expect_exact_schema (object fs) version legacy_version_ required_keys binding_keys ≡ ok found
    → found.0 ≡ fs
unfolding expect_exact_schema
exact_fields version legacy_version_ required_keys binding_keys fs found h =
    elim (Result-cases (expect_data_object (object fs))) [
      | inr (x, e) ↦ absurd (let q : ok found ≡ err x = ground arith in cc)
      | inl (read, e) ↦ ground (arith, data_object_lem fs read e)
    ]

expect_schema_fields :
    (suffix : Str) (required_keys binding_keys : List Str) (fs : Fields) (found : Fields × Str)
    → expect_schema suffix required_keys binding_keys (object fs) ≡ ok found
    → found.0 ≡ fs
unfolding expect_schema
expect_schema_fields suffix required_keys binding_keys fs found h =
    elim (Result-cases (
      expect_exact_schema (object fs) (current_version suffix) (legacy_version suffix) required_keys
        binding_keys)) [
          | inr (x, e) ↦ absurd (let q : ok found ≡ err x = ground arith in cc)
          | inl (inner, e) ↦ ground (arith, exact_fields _ _ _ _ fs inner e)
        ]

abbrev result_fields : EvaluationResult → Fields
result_fields r = property (codes "schemaVersion") (str r.schema_version) (
    property (codes "evaluationId") (str r.evaluation_id) (
      property (codes "inputs") (of_inputs r.inputs) (
        property (codes "evaluationInputsDigest") (str r.evaluation_inputs_digest) (
          property (codes "verdict") (str (verdict_text r.verdict))
            (property (codes "evaluatedAt") (str r.evaluated_at) end)))))

abbrev expect_result_schema : EvaluationResult → Result (Fields × Str)
expect_result_schema r =
    expect_schema (codes "evaluation-result/v1") (result_bindings ++ codes "evaluatedAt" ∷ [])
      result_bindings (of_result r)

pub result_verdict :
    (r s : EvaluationResult) → parse_evaluation_result (of_result r) ≡ ok s → s.verdict ≡ r.verdict
unfolding parse_evaluation_result
result_verdict r s h = elim (Result-cases (expect_result_schema r)) [
  | inr (x, e) ↦ absurd (let q : ok s ≡ err x = ground arith in cc)
  | inl (found, e) ↦
      let f = expect_schema_fields _ _ _ (result_fields r) found e in
      elim (Result-cases (parse_verdict (get (codes "verdict") (found.0)))) [
        | inr (x, g) ↦
            let read : ok r.verdict ≡ err x = sym (verdict_back r.verdict) ∙ (rw f at g) in cc
        | inl (v, g) ↦
            let q : s.verdict ≡ v = ground arith in
            let read : parse_verdict (str (verdict_text r.verdict)) ≡ ok v = rw f at g in
            q ∙ ok-injective (sym read ∙ verdict_back r.verdict)
      ]
]

pub verdict_of_iff : (vs : List RuleViolation) → (verdict_of vs ≡ clear) ↔ (vs ≡ [])
verdict_of_iff [] = (λ e. refl, λ e. refl)
verdict_of_iff (v ∷ vs) = (λ e. cc, λ e. cc)

pub rules_known :
    (input : Value) (envelope : ConfidentialEvaluationEnvelope)
    → parse_confidential_evaluation_envelope input ≡ ok envelope
    → all (names_known_zone envelope.zones) envelope.rules ≡ true
unfolding AreRulesOf
rules_known input envelope h =
    let (fs, e, g, there, (items, known, sorted, distinct)) = envelope_tests input envelope h in
    known
