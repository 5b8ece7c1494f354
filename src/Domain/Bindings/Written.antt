-- ===== src/Domain/Bindings/Written.antt =====
-- What the parsers (packages/domain/src/schemas.ts) read from a record that is written out as a plain
-- object: the record's own values.
use rovaulta.Domain.Timestamps.Accepts.{parse_unix_timestamp_iff, parse_expiry_iff, IsTimestamp}
use rovaulta.Domain.Identifiers.Digests.{parse_sha256_digest_iff}
use rovaulta.Domain.Identifiers.Accepts.{parse_identifier_iff}
use rovaulta.Domain.Timestamps.{parse_unix_timestamp, parse_expiry}
use rovaulta.Domain.Identifiers.{
  parse_site_id, parse_robot_id, parse_robot_build_id, parse_evaluation_id, parse_sha256_digest,
  parse_safety_envelope_id, parse_evaluator_version_id, parse_clearance_id,
}
use rovaulta.Domain.Schemas.Exact.{expect_schema-fields}
use rovaulta.Errors.{ok, bind_parts, >>-eq-ok, require, protocol, malformed_object, ok-injective}
use rovaulta.Domain.Bindings.Clearance.{AreSameInputs}
use rovaulta.Domain.ReleaseSchemas.{parse_clearance_record, clearance_keys, clearance_bindings}
use rovaulta.Domain.Records.{
  EvaluationResult, EvaluationInputs, of_result, ClearanceRecord, of_inputs, of_clearance,
}
use rovaulta.Domain.Schemas.{
  parse_evaluation_inputs, parse_evaluation_result, expect_schema, input_bindings, result_bindings,
  is_text, parse_verdict,
}
use rovaulta.Domain.Value.{Fields, get, str}
use mathlib.Core.Path.{subst, sym, ap}
use rovaulta.Prelude.{Str, ◌≡◌, sym, codes, ◌∙◌, ap, ◌++◌, ◌∷◌, [], arith, refl}

text_lem : {fs gs : Fields} → fs ≡ gs → (k s t : Str) → get k fs ≡ str s → get k gs ≡ str t → t ≡ s
text_lem {fs} {gs} own k s t h h' = let q : str t ≡ str s = sym h' ∙ ap (get k) (sym own) ∙ h in cc

pub parse_evaluation_inputs-same :
    (i j : EvaluationInputs) → parse_evaluation_inputs (of_inputs i) ≡ ok j → AreSameInputs j i
unfolding parse_evaluation_inputs
parse_evaluation_inputs-same i j h =
    let ((fs, version), e, h1) =
      bind_parts
        (expect_schema (codes "evaluation-inputs/v1") input_bindings input_bindings (of_inputs i)) _
        h in
    let own = expect_schema-fields _ _ _ _ fs _ e in
    let (site, e1, h2) = bind_parts (parse_site_id (get (codes "siteId") fs)) _ h1 in
    let (robot, e2, h3) = bind_parts (parse_robot_id (get (codes "robotId") fs)) _ h2 in
    let (build, e3, h4) = bind_parts (parse_robot_build_id (get (codes "robotBuildId") fs)) _ h3 in
    let (digest, e4, h5) =
      bind_parts (parse_sha256_digest (get (codes "robotBuildDigest") fs)) _ h4 in
    let (envelope, e5, h6) =
      bind_parts (parse_safety_envelope_id (get (codes "safetyEnvelopeId") fs)) _ h5 in
    let (commitment, e6, h7) =
      bind_parts (parse_sha256_digest (get (codes "safetyEnvelopeCommitment") fs)) _ h6 in
    let (evaluator, e7, h8) =
      bind_parts (parse_evaluator_version_id (get (codes "evaluatorVersion") fs)) _ h7 in
    let f1 = ((parse_identifier_iff (codes "site") _ _ (omega arith)).0 e1).0 in
    let f2 = ((parse_identifier_iff (codes "robot") _ _ (omega arith)).0 e2).0 in
    let f3 = ((parse_identifier_iff (codes "robot-build") _ _ (omega arith)).0 e3).0 in
    let f4 = ((parse_sha256_digest_iff _ _).0 e4).0 in
    let f5 = ((parse_identifier_iff (codes "safety-envelope") _ _ (omega arith)).0 e5).0 in
    let f6 = ((parse_sha256_digest_iff _ _).0 e6).0 in
    let f7 = ((parse_identifier_iff (codes "evaluator-version") _ _ (omega arith)).0 e7).0 in
    let read : EvaluationInputs = record {
      schema_version = version;
      site_id = site;
      robot_id = robot;
      robot_build_id = build;
      robot_build_digest = digest;
      safety_envelope_id = envelope;
      safety_envelope_commitment = commitment;
      evaluator_version = evaluator;
    } in
    let same : AreSameInputs read i = record {
      site = text_lem own (codes "siteId") i.site_id site refl f1;
      robot = text_lem own (codes "robotId") i.robot_id robot refl f2;
      build = text_lem own (codes "robotBuildId") i.robot_build_id build refl f3;
      build_digest = text_lem own (codes "robotBuildDigest") i.robot_build_digest digest refl f4;
      envelope = text_lem own (codes "safetyEnvelopeId") i.safety_envelope_id envelope refl f5;
      commitment =
          text_lem own (codes "safetyEnvelopeCommitment") i.safety_envelope_commitment commitment
            refl f6;
      evaluator = text_lem own (codes "evaluatorVersion") i.evaluator_version evaluator refl f7;
    } in
    subst (λ q. AreSameInputs q i) (ok-injective h8) same

-- The first result has the values of the second that a clearance is about, and a canonical
-- timestamp.
pub record IsSameResult (a b : EvaluationResult) : Type 0 where
  pub evaluation : a.evaluation_id ≡ b.evaluation_id
  pub inputs : AreSameInputs a.inputs b.inputs
  pub digest : a.evaluation_inputs_digest ≡ b.evaluation_inputs_digest
  pub evaluated : a.evaluated_at ≡ b.evaluated_at
  pub timestamp : IsTimestamp a.evaluated_at

pub parse_evaluation_result-same :
    (r s : EvaluationResult) → parse_evaluation_result (of_result r) ≡ ok s → IsSameResult s r
unfolding parse_evaluation_result
parse_evaluation_result-same r s h =
    let ((fs, version), e, h1) =
      bind_parts
        (expect_schema (codes "evaluation-result/v1") (result_bindings ++ codes "evaluatedAt" ∷ [])
          result_bindings (of_result r))
        _ h in
    let own = expect_schema-fields _ _ _ _ fs _ e in
    let (evaluation, e1, h2) =
      bind_parts (parse_evaluation_id (get (codes "evaluationId") fs)) _ h1 in
    let (inputs, e2, h3) = bind_parts (parse_evaluation_inputs (get (codes "inputs") fs)) _ h2 in
    let (digest, e3, h4) =
      bind_parts (parse_sha256_digest (get (codes "evaluationInputsDigest") fs)) _ h3 in
    let (verdict, e4, h5) = bind_parts (parse_verdict (get (codes "verdict") fs)) _ h4 in
    let (evaluated_at, e5, h6) =
      bind_parts (parse_unix_timestamp (get (codes "evaluatedAt") fs)) _ h5 in
    let f1 = ((parse_identifier_iff (codes "evaluation") _ _ (omega arith)).0 e1).0 in
    let f3 = ((parse_sha256_digest_iff _ _).0 e3).0 in
    let f5 = (parse_unix_timestamp_iff _ _).0 e5 in
    let read : EvaluationResult = record {
      schema_version = version;
      evaluation_id = evaluation;
      inputs = inputs;
      evaluation_inputs_digest = digest;
      verdict = verdict;
      evaluated_at = evaluated_at;
    } in
    let same : IsSameResult read r = record {
      evaluation = text_lem own (codes "evaluationId") r.evaluation_id evaluation refl f1;
      inputs =
          parse_evaluation_inputs-same r.inputs inputs
            (ap (λ gs. parse_evaluation_inputs (get (codes "inputs") gs)) own ∙ e2);
      digest =
          text_lem own (codes "evaluationInputsDigest") r.evaluation_inputs_digest digest refl f3;
      evaluated = text_lem own (codes "evaluatedAt") r.evaluated_at evaluated_at refl f5.0;
      timestamp = f5.1;
    } in
    subst (λ q. IsSameResult q r) (ok-injective h6) same

pub parse_clearance_record-same :
    (c d : ClearanceRecord)
    → parse_clearance_record (of_clearance c) ≡ ok d
    → (d.clearance_id ≡ c.clearance_id)
      × (d.issued_at ≡ c.issued_at)
      × (d.expires_at ≡ c.expires_at)
unfolding parse_clearance_record
parse_clearance_record-same c d h =
    let ((fs, version), e, h1) =
      bind_parts
        (expect_schema (codes "clearance-record/v1") clearance_keys clearance_bindings
          (of_clearance c))
        _ h in
    let own = expect_schema-fields _ _ _ _ fs _ e in
    let (k1, h2) =
      >>-eq-ok
        (require (is_text (get (codes "verdict") fs) (codes "CLEAR")) (protocol malformed_object)) _
        h1 in
    let (issued_at, e1, h3) = bind_parts (parse_unix_timestamp (get (codes "issuedAt") fs)) _ h2 in
    let (clearance, e2, h4) = bind_parts (parse_clearance_id (get (codes "clearanceId") fs)) _ h3 in
    let (evaluation, e3, h5) =
      bind_parts (parse_evaluation_id (get (codes "evaluationId") fs)) _ h4 in
    let (inputs, e4, h6) = bind_parts (parse_evaluation_inputs (get (codes "inputs") fs)) _ h5 in
    let (digest, e5, h7) =
      bind_parts (parse_sha256_digest (get (codes "evaluationInputsDigest") fs)) _ h6 in
    let (expires_at, e6, h8) =
      bind_parts (parse_expiry (get (codes "expiresAt") fs) issued_at) _ h7 in
    let f1 = (parse_unix_timestamp_iff _ _).0 e1 in
    let f2 = ((parse_identifier_iff (codes "clearance") _ _ (omega arith)).0 e2).0 in
    let f6 =
      (((parse_expiry_iff (get (codes "expiresAt") fs) issued_at f1.1.0).0 expires_at).0 e6).0 in
    let same = ok-injective h8 in
    (
      ap (λ (q : ClearanceRecord). q.clearance_id) (sym same)
          ∙ text_lem own (codes "clearanceId") c.clearance_id clearance refl f2,
      ap (λ (q : ClearanceRecord). q.issued_at) (sym same)
          ∙ text_lem own (codes "issuedAt") c.issued_at issued_at refl f1.0,
      ap (λ (q : ClearanceRecord). q.expires_at) (sym same)
          ∙ text_lem own (codes "expiresAt") c.expires_at expires_at refl f6,
    )
