-- ===== src/Domain/Schemas/Inputs.antt =====
-- Evaluation inputs: their parser accepts exactly the valid ones.
use rovaulta.Domain.Identifiers.Digests.{IsSha256, sha256, parse_sha256_digest-str}
use rovaulta.Domain.Identifiers.Accepts.{IsIdentifier, identifier, parse_identifier-str}
use rovaulta.Errors.{ok, Result-cases, err}
use rovaulta.Domain.Value.{Value, get}
use rovaulta.Domain.Schemas.Exact.{HasVersion, expect_schema-HasVersion, expect_schema-object}
use rovaulta.Domain.Schemas.{
  parse_evaluation_inputs, Value, codes, ok, expect_schema, input_bindings, get,
}
use rovaulta.Domain.Records.{EvaluationInputs, of_inputs}
use rovaulta.Prelude.{◌≡◌, codes, inl, arith, inr, refl}

pub record IsValidInputs (i : EvaluationInputs) : Type 0 where
  pub version : HasVersion (codes "evaluation-inputs/v1") i.schema_version
  pub site : IsIdentifier (codes "site") i.site_id
  pub robot : IsIdentifier (codes "robot") i.robot_id
  pub build : IsIdentifier (codes "robot-build") i.robot_build_id
  pub digest : IsSha256 i.robot_build_digest
  pub envelope : IsIdentifier (codes "safety-envelope") i.safety_envelope_id
  pub commitment : IsSha256 i.safety_envelope_commitment
  pub evaluator : IsIdentifier (codes "evaluator-version") i.evaluator_version

-- Of whatever value, what `parseEvaluationInputs` returns has a supported schema version, identifiers
-- of the field's prefix, and canonical digests.
pub parse_evaluation_inputs-IsValidInputs :
    (v : Value) (i : EvaluationInputs) → parse_evaluation_inputs v ≡ ok i → IsValidInputs i
unfolding parse_evaluation_inputs
parse_evaluation_inputs-IsValidInputs v i h =
    elim (Result-cases
      (expect_schema (codes "evaluation-inputs/v1") input_bindings input_bindings v)) [
        | inl ((fs, version), e) ↦ record {
          version =
              rw (let q : version ≡ i.schema_version = ground arith in q) at
                (expect_schema-HasVersion _ _ _ _ e);
          site = identifier (codes "site") (get (codes "siteId") fs) (omega arith) (ground arith);
          robot =
              identifier (codes "robot") (get (codes "robotId") fs) (omega arith) (ground arith);
          build =
              identifier (codes "robot-build") (get (codes "robotBuildId") fs) (omega arith)
                (ground arith);
          digest = sha256 (get (codes "robotBuildDigest") fs) (ground arith);
          envelope =
              identifier (codes "safety-envelope") (get (codes "safetyEnvelopeId") fs) (omega arith)
                (ground arith);
          commitment = sha256 (get (codes "safetyEnvelopeCommitment") fs) (ground arith);
          evaluator =
              identifier (codes "evaluator-version") (get (codes "evaluatorVersion") fs)
                (omega arith) (ground arith);
        }
        | inr (f, e) ↦ absurd (let q : ok i ≡ err f = ground arith in cc)
      ]

-- Evaluation inputs that are valid in this sense, written out as a plain object, are read back
-- unchanged.
pub parse_evaluation_inputs-of_inputs :
    (i : EvaluationInputs) → IsValidInputs i → parse_evaluation_inputs (of_inputs i) ≡ ok i
unfolding parse_evaluation_inputs
parse_evaluation_inputs-of_inputs i h = rw (
  expect_schema-object (codes "evaluation-inputs/v1") input_bindings input_bindings i.schema_version
      _ h.version refl refl refl,
  parse_identifier-str (codes "site") i.site_id (omega arith) h.site,
  parse_identifier-str (codes "robot") i.robot_id (omega arith) h.robot,
  parse_identifier-str (codes "robot-build") i.robot_build_id (omega arith) h.build,
  parse_sha256_digest-str i.robot_build_digest h.digest,
  parse_identifier-str (codes "safety-envelope") i.safety_envelope_id (omega arith) h.envelope,
  parse_sha256_digest-str i.safety_envelope_commitment h.commitment,
  parse_identifier-str (codes "evaluator-version") i.evaluator_version (omega arith) h.evaluator,
)
