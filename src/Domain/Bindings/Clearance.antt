-- ===== src/Domain/Bindings/Clearance.antt =====
-- What `assertClearanceBindings` guarantees (packages/domain/src/bindings.ts).
use rovaulta.Domain.Schemas.{parse_evaluation_result}
use rovaulta.Domain.ReleaseSchemas.{parse_clearance_record}
use rovaulta.Domain.Value.{Value}
use rovaulta.Errors.{
  ok, Result-cases, err, Result, ◌>>◌, reject, protocol, binding_mismatch, >>-eq-ok,
}
use rovaulta.Domain.Bindings.{
  assert_inputs, assert_clearance_bindings, ClearanceRecord, assert_binding, str_eq,
  EvaluationResult, assert_digest, codes, digest_evaluation_inputs, ok, verdict_text, Value,
  of_inputs, true, parse_clearance_record, parse_evaluation_result, is_before, false, Result,
  reject, protocol, binding_mismatch,
}
use rovaulta.Domain.Digests.{Platform, digest_evaluation_inputs}
use rovaulta.Domain.Records.{
  EvaluationInputs, Verdict, ClearanceRecord, EvaluationResult, verdict_text, of_inputs, clear,
  hold, escalate,
}
use rovaulta.Prelude.{
  Str, ◌≡◌, str_eq, codes, eq_of_str_eq, true, arith, inr, false, refl, inl, ◌∙◌, ap, sym,
}

-- All that the check compares of two inputs, which is every field but the schema version.
pub record AreSameInputs (a b : EvaluationInputs) : Type 0 where
  pub site : a.site_id ≡ b.site_id
  pub robot : a.robot_id ≡ b.robot_id
  pub build : a.robot_build_id ≡ b.robot_build_id
  pub build_digest : a.robot_build_digest ≡ b.robot_build_digest
  pub envelope : a.safety_envelope_id ≡ b.safety_envelope_id
  pub commitment : a.safety_envelope_commitment ≡ b.safety_envelope_commitment
  pub evaluator : a.evaluator_version ≡ b.evaluator_version

-- The clearance is of the evaluation, which was clear, and is not issued before it.
pub record IsClearanceOf (p : Platform) (c : ClearanceRecord) (r : EvaluationResult) : Type 0 where
  pub evaluation : c.evaluation_id ≡ r.evaluation_id
  pub inputs : AreSameInputs c.inputs r.inputs
  pub inputs_digest :
      digest_evaluation_inputs p (of_inputs c.inputs) ≡ ok c.evaluation_inputs_digest
  pub result_digest :
      digest_evaluation_inputs p (of_inputs r.inputs) ≡ ok r.evaluation_inputs_digest
  pub same_digest : c.evaluation_inputs_digest ≡ r.evaluation_inputs_digest
  pub was_clear : r.verdict ≡ clear
  pub not_before : is_before c.issued_at r.evaluated_at ≡ false

same_inputs : (a b : EvaluationInputs) {u : Unit {0}} → assert_inputs a b ≡ ok u → AreSameInputs a b
unfolding assert_inputs assert_binding assert_digest
same_inputs a b h = record {
  site = eq_of_str_eq a.site_id b.site_id (ground arith);
  robot = eq_of_str_eq a.robot_id b.robot_id (ground arith);
  build = eq_of_str_eq a.robot_build_id b.robot_build_id (ground arith);
  build_digest = eq_of_str_eq a.robot_build_digest b.robot_build_digest (ground arith);
  envelope = eq_of_str_eq a.safety_envelope_id b.safety_envelope_id (ground arith);
  commitment =
      eq_of_str_eq a.safety_envelope_commitment b.safety_envelope_commitment (ground arith);
  evaluator = eq_of_str_eq a.evaluator_version b.evaluator_version (ground arith);
}

clear_lem : (v : Verdict) → str_eq (codes "CLEAR") (verdict_text v) ≡ true → v ≡ clear
clear_lem clear h = refl
clear_lem hold h = cc
clear_lem escalate h = cc

-- The checks that follow the parsing and the digests.
abbrev clearance_checks : ClearanceRecord → EvaluationResult → Result (Unit {0})
clearance_checks c r = do
  assert_binding c.evaluation_id r.evaluation_id
  assert_inputs c.inputs r.inputs
  assert_digest c.evaluation_inputs_digest r.evaluation_inputs_digest
  assert_binding (codes "CLEAR") (verdict_text r.verdict)
  reject (is_before c.issued_at r.evaluated_at) (protocol binding_mismatch)

-- What was parsed, the digests that were computed, and the checks that passed.
abbrev Passed : Platform → Value → Value → ClearanceRecord → EvaluationResult → Type 0
Passed p v w c r =
    (parse_clearance_record v ≡ ok c)
    × (parse_evaluation_result w ≡ ok r)
    × (digest_evaluation_inputs p (of_inputs r.inputs) ≡ ok r.evaluation_inputs_digest)
    × (digest_evaluation_inputs p (of_inputs c.inputs) ≡ ok c.evaluation_inputs_digest)
    × (clearance_checks c r ≡ ok tt)

digest_lem : (m : Result Str) (s d : Str) → m ≡ ok d → assert_digest s d ≡ ok tt → m ≡ ok s
unfolding assert_digest
digest_lem m s d e h = e ∙ ap ok (sym (eq_of_str_eq s d (ground arith)))

checks_then :
    (c c' : ClearanceRecord) (r : EvaluationResult)
    → (do
      assert_binding c.evaluation_id r.evaluation_id
      assert_inputs c.inputs r.inputs
      assert_digest c.evaluation_inputs_digest r.evaluation_inputs_digest
      assert_binding (codes "CLEAR") (verdict_text r.verdict)
      reject (is_before c.issued_at r.evaluated_at) (protocol binding_mismatch)
      ok c)
      ≡ ok c'
    → (c ≡ c') × (clearance_checks c r ≡ ok tt)
checks_then c c' r h = ground arith

passed_lem :
    (p : Platform) (v w : Value) (c : ClearanceRecord)
    → assert_clearance_bindings p v w ≡ ok c
    → (r : EvaluationResult) × Passed p v w c r
unfolding assert_clearance_bindings
passed_lem p v w c h = elim (Result-cases (parse_clearance_record v)) [
  | inr (x, e) ↦ absurd (let q : err x ≡ ok c = rw e at h in cc)
  | inl (c', e) ↦ elim (Result-cases (parse_evaluation_result w)) [
    | inr (x, f) ↦ absurd (let q : err x ≡ ok c = rw (e, f) at h in cc)
    | inl (r, f) ↦ elim (Result-cases (digest_evaluation_inputs p (of_inputs r.inputs))) [
      | inr (x, g) ↦ absurd (let q : err x ≡ ok c = rw (e, f, g) at h in cc)
      | inl (d, g) ↦
          let (k, rest) =
            >>-eq-ok (assert_digest r.evaluation_inputs_digest d) _ (rw (e, f, g) at h) in
          elim (Result-cases (digest_evaluation_inputs p (of_inputs c'.inputs))) [
            | inr (x, i) ↦ absurd (let q : err x ≡ ok c = rw i at rest in cc)
            | inl (d', i) ↦
                let (k', checks) =
                  >>-eq-ok (assert_digest c'.evaluation_inputs_digest d') _ (rw i at rest) in
                let (same, passed) = checks_then c' c r checks in
                let all_passed : Passed p v w c' r =
                  (e, f, digest_lem _ _ d g k, digest_lem _ _ d' i k', passed) in
                (r, rw same at all_passed)
          ]
    ]
  ]
]

checks_sound :
    (p : Platform) (v w : Value) (c : ClearanceRecord) (r : EvaluationResult)
    → Passed p v w c r
    → IsClearanceOf p c r
unfolding assert_binding assert_digest
checks_sound p v w c r (e, f, g, i, h) =
    let k : assert_inputs c.inputs r.inputs ≡ ok tt = ground arith in
    record {
      evaluation = eq_of_str_eq c.evaluation_id r.evaluation_id (ground arith);
      inputs = same_inputs c.inputs r.inputs k;
      inputs_digest = i;
      result_digest = g;
      same_digest =
          eq_of_str_eq c.evaluation_inputs_digest r.evaluation_inputs_digest (ground arith);
      was_clear = clear_lem r.verdict (ground arith);
      not_before = ground arith;
    }

-- A clearance that passes the check is the one that is read from the first value, and belongs to
-- the evaluation result that is read from the second: the evaluation and the inputs are the same,
-- the digests are those of the inputs, the verdict was CLEAR, and it is not issued before.
pub clearance_bindings_sound :
    (p : Platform) (v w : Value) (c : ClearanceRecord)
    → assert_clearance_bindings p v w ≡ ok c
    → (r : EvaluationResult) × (parse_clearance_record v ≡ ok c)
      × (parse_evaluation_result w ≡ ok r)
      × IsClearanceOf p c r
clearance_bindings_sound p v w c h =
    let (r, passed) = passed_lem p v w c h in (r, passed.0, passed.1, checks_sound p v w c r passed)
