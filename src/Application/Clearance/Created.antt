-- ===== src/Application/Clearance/Created.antt =====
-- What a clearance that is created from an evaluation says of it.
use rovaulta.Domain.Timestamps.Order.{compare_unix_timestamps_lem}
use rovaulta.Domain.Bindings.{is_before}
use rovaulta.Domain.Timestamps.{to_number}
use rovaulta.Domain.Timestamps.Accepts.{IsTimestamp}
use rovaulta.Domain.Bindings.Written.{parse_evaluation_result-same, parse_clearance_record-same}
use Prim.Native.Nat.{Ordering, compare}
use rovaulta.Domain.Records.{clear, hold, escalate, of_inputs}
use rovaulta.Domain.Bindings.Clearance.{clearance_bindings_sound}
use rovaulta.Domain.ReleaseSchemas.Clearance.{
  IsValidClearance, parse_clearance_record-IsValidClearance,
}
use rovaulta.Domain.ReleaseSchemas.{parse_clearance_record}
use rovaulta.Domain.Schemas.{parse_evaluation_result}
use rovaulta.Errors.{ok, >>-eq-ok, require, application, conflict, bind_parts, require_passed}
use rovaulta.Domain.Digests.{Platform, digest_evaluation_inputs}
use rovaulta.Application.Clearance.{
  create_clearance_record_from_evaluation, is_clear_verdict, PublicEvaluation, ClearanceParameters,
  result_of, clearance_of, Str, false,
}
use rovaulta.Domain.Records.{Verdict, clear, ClearanceRecord, of_result, of_clearance, hold}
use rovaulta.Prelude.{◌≡◌, true, ◌∙◌, refl, Str, ◌≤◌, false, arith}

clear_verdict_lem : (v : Verdict) → is_clear_verdict v ≡ true → v ≡ clear
clear_verdict_lem clear h = refl
clear_verdict_lem hold h = cc
clear_verdict_lem escalate h = cc

-- The clearance has the caller's id and timestamps and the inputs of the stored evaluation.
pub record IsClearanceFor (p : Platform) (evaluation : PublicEvaluation)
    (input : ClearanceParameters) (c : ClearanceRecord) : Type 0 where
  pub was_clear : evaluation.verdict ≡ clear
  pub same_id : c.clearance_id ≡ input.clearance_id
  pub issued : c.issued_at ≡ input.issued_at
  pub expires : c.expires_at ≡ input.expires_at
  pub of_evaluation : c.evaluation_id ≡ evaluation.evaluation_id
  pub site : c.inputs.site_id ≡ evaluation.site_id
  pub robot : c.inputs.robot_id ≡ evaluation.robot_id
  pub build : c.inputs.robot_build_id ≡ evaluation.robot_build_id
  pub build_digest : c.inputs.robot_build_digest ≡ evaluation.robot_build_digest
  pub envelope : c.inputs.safety_envelope_id ≡ evaluation.safety_envelope_id
  pub commitment : c.inputs.safety_envelope_commitment ≡ evaluation.safety_envelope_commitment
  pub evaluator : c.inputs.evaluator_version ≡ evaluation.evaluator_version
  pub same_digest : c.evaluation_inputs_digest ≡ evaluation.evaluation_inputs_digest
  pub computed : digest_evaluation_inputs p (of_inputs c.inputs) ≡ ok c.evaluation_inputs_digest
  pub not_before : to_number evaluation.evaluated_at ≤ to_number c.issued_at
  pub valid : IsValidClearance c

not_before_lem :
    (s t : Str) → IsTimestamp s → IsTimestamp t → is_before s t ≡ false → to_number t ≤ to_number s
not_before_lem s t h k later =
    let q : elim (compare (to_number s) (to_number t)) [ Ordering.lt ↦ true | _ ↦ false ] ≡ false =
      rw (compare_unix_timestamps_lem s t h.0 k.0, is_before) at later in
    ground arith

-- A clearance that is created from a stored evaluation is valid. The evaluation's verdict was CLEAR;
-- the clearance has the id, the issuance and the expiry that the caller gave, and the evaluation's
-- own id, site, robot, build, build digest, safety envelope, commitment, evaluator and inputs
-- digest; this digest is the one computed from its inputs; and it is not issued before the
-- evaluation.
pub create_clearance_record_from_evaluation-IsClearanceFor :
    (p : Platform) (evaluation : PublicEvaluation) (input : ClearanceParameters)
    (c : ClearanceRecord)
    → create_clearance_record_from_evaluation p evaluation input ≡ ok c
    → IsClearanceFor p evaluation input c
unfolding create_clearance_record_from_evaluation
create_clearance_record_from_evaluation-IsClearanceFor p evaluation input c h =
    let (k, h1) =
      >>-eq-ok (require (is_clear_verdict evaluation.verdict) (application conflict)) _ h in
    let (result, e, h2) =
      bind_parts (parse_evaluation_result (of_result (result_of evaluation))) _ h1 in
    let (made, f, h3) =
      bind_parts (parse_clearance_record (of_clearance (clearance_of result input))) _ h2 in
    let (read, parsed, read_parsed, bound) =
      clearance_bindings_sound p (of_clearance made) (of_result result) c h3 in
    let valid = parse_clearance_record-IsValidClearance _ c parsed in
    let a = parse_evaluation_result-same (result_of evaluation) result e in
    let b = parse_evaluation_result-same result read read_parsed in
    let (id1, issued1, expires1) = parse_clearance_record-same (clearance_of result input) made f in
    let (id2, issued2, expires2) = parse_clearance_record-same made c parsed in
    let evaluated : read.evaluated_at ≡ evaluation.evaluated_at = b.evaluated ∙ a.evaluated in
    record {
      was_clear = clear_verdict_lem evaluation.verdict (require_passed _ _ k);
      same_id = id2 ∙ id1;
      issued = issued2 ∙ issued1;
      expires = expires2 ∙ expires1;
      of_evaluation = bound.evaluation ∙ b.evaluation ∙ a.evaluation;
      site = bound.inputs.site ∙ b.inputs.site ∙ a.inputs.site;
      robot = bound.inputs.robot ∙ b.inputs.robot ∙ a.inputs.robot;
      build = bound.inputs.build ∙ b.inputs.build ∙ a.inputs.build;
      build_digest = bound.inputs.build_digest ∙ b.inputs.build_digest ∙ a.inputs.build_digest;
      envelope = bound.inputs.envelope ∙ b.inputs.envelope ∙ a.inputs.envelope;
      commitment = bound.inputs.commitment ∙ b.inputs.commitment ∙ a.inputs.commitment;
      evaluator = bound.inputs.evaluator ∙ b.inputs.evaluator ∙ a.inputs.evaluator;
      same_digest = bound.same_digest ∙ b.digest ∙ a.digest;
      computed = bound.inputs_digest;
      not_before =
          let order =
            not_before_lem c.issued_at read.evaluated_at valid.issued b.timestamp
              bound.not_before in
          rw evaluated at order;
      valid = valid;
    }
