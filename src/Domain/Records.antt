-- ===== src/Domain/Records.antt =====
-- The protocol's records (packages/domain/src/schemas.ts), and each as the plain data object that
-- the canonical serializer and the parsers read.
use rovaulta.Domain.Value.{Fields, Value, field, obj, name, str, end}
use rovaulta.Prelude.{Str, codes, Option, true, none, some}

-- `EvaluationVerdict`
pub data Verdict : Type 0 where
  clear hold escalate : Verdict

abbrev pub verdict_text : Verdict → Str
verdict_text clear = codes "CLEAR"
verdict_text hold = codes "HOLD"
verdict_text escalate = codes "ESCALATE"

pub record RobotBuildDescriptor : Type 0 where
  pub schema_version : Str
  pub robot_id : Str
  pub robot_build_id : Str
  pub artifact_digest : Str
  pub build_integrity_digest : Option Str

pub record SafetyEnvelopeMetadata : Type 0 where
  pub schema_version : Str
  pub site_id : Str
  pub safety_envelope_id : Str
  pub safety_envelope_commitment : Str

pub record EvaluationInputs : Type 0 where
  pub schema_version : Str
  pub site_id : Str
  pub robot_id : Str
  pub robot_build_id : Str
  pub robot_build_digest : Str
  pub safety_envelope_id : Str
  pub safety_envelope_commitment : Str
  pub evaluator_version : Str

pub record EvaluationRequest : Type 0 where
  pub schema_version : Str
  pub evaluation_id : Str
  pub inputs : EvaluationInputs
  pub requested_at : Str

pub record EvaluationResult : Type 0 where
  pub schema_version : Str
  pub evaluation_id : Str
  pub inputs : EvaluationInputs
  pub evaluation_inputs_digest : Str
  pub verdict : Verdict
  pub evaluated_at : Str

-- The verdict of a clearance is always CLEAR, and has no field.
pub record ClearanceRecord : Type 0 where
  pub schema_version : Str
  pub clearance_id : Str
  pub evaluation_id : Str
  pub inputs : EvaluationInputs
  pub evaluation_inputs_digest : Str
  pub issued_at : Str
  pub expires_at : Str

-- The action and the target environment have one value each, and no field.
pub record DeploymentIntent : Type 0 where
  pub schema_version : Str
  pub site_id : Str
  pub robot_id : Str
  pub robot_build_id : Str
  pub robot_build_digest : Str
  pub clearance_id : Str
  pub clearance_digest : Str
  pub nonce : Str
  pub issued_at : Str
  pub expires_at : Str

-- One enumerable data property, and a plain object of such.
abbrev pub property : Str → Value → Fields → Fields
property k v fs = field (name k) true v fs

abbrev pub object : Fields → Value
object fs = obj true fs

abbrev pub of_robot_build : RobotBuildDescriptor → Value
of_robot_build r = object (
    property (codes "schemaVersion") (str r.schema_version) (
      property (codes "robotId") (str r.robot_id) (
        property (codes "robotBuildId") (str r.robot_build_id) (
          property (codes "artifactDigest") (str r.artifact_digest) (elim r.build_integrity_digest [
            | none ↦ end
            | some d ↦ property (codes "buildIntegrityDigest") (str d) end
          ])))))

abbrev pub of_envelope_metadata : SafetyEnvelopeMetadata → Value
of_envelope_metadata m = object (
    property (codes "schemaVersion") (str m.schema_version) (
      property (codes "siteId") (str m.site_id) (
        property (codes "safetyEnvelopeId") (str m.safety_envelope_id)
          (property (codes "safetyEnvelopeCommitment") (str m.safety_envelope_commitment) end))))

abbrev pub of_inputs : EvaluationInputs → Value
of_inputs i = object (
    property (codes "schemaVersion") (str i.schema_version) (
      property (codes "siteId") (str i.site_id) (
        property (codes "robotId") (str i.robot_id) (
          property (codes "robotBuildId") (str i.robot_build_id) (
            property (codes "robotBuildDigest") (str i.robot_build_digest) (
              property (codes "safetyEnvelopeId") (str i.safety_envelope_id) (
                property (codes "safetyEnvelopeCommitment") (str i.safety_envelope_commitment)
                  (property (codes "evaluatorVersion") (str i.evaluator_version) end))))))))

abbrev pub of_request : EvaluationRequest → Value
of_request r = object (
    property (codes "schemaVersion") (str r.schema_version) (
      property (codes "evaluationId") (str r.evaluation_id) (
        property (codes "inputs") (of_inputs r.inputs)
          (property (codes "requestedAt") (str r.requested_at) end))))

abbrev pub of_result : EvaluationResult → Value
of_result r = object (
    property (codes "schemaVersion") (str r.schema_version) (
      property (codes "evaluationId") (str r.evaluation_id) (
        property (codes "inputs") (of_inputs r.inputs) (
          property (codes "evaluationInputsDigest") (str r.evaluation_inputs_digest) (
            property (codes "verdict") (str (verdict_text r.verdict))
              (property (codes "evaluatedAt") (str r.evaluated_at) end))))))

abbrev pub of_clearance : ClearanceRecord → Value
of_clearance c = object (
    property (codes "schemaVersion") (str c.schema_version) (
      property (codes "clearanceId") (str c.clearance_id) (
        property (codes "evaluationId") (str c.evaluation_id) (
          property (codes "inputs") (of_inputs c.inputs) (
            property (codes "evaluationInputsDigest") (str c.evaluation_inputs_digest) (
              property (codes "verdict") (str (codes "CLEAR")) (
                property (codes "issuedAt") (str c.issued_at)
                  (property (codes "expiresAt") (str c.expires_at) end))))))))

abbrev pub of_intent : DeploymentIntent → Value
of_intent i = object (
    property (codes "schemaVersion") (str i.schema_version) (
      property (codes "action") (str (codes "ACTIVATE_DEPLOYMENT")) (
        property (codes "siteId") (str i.site_id) (
          property (codes "robotId") (str i.robot_id) (
            property (codes "robotBuildId") (str i.robot_build_id) (
              property (codes "robotBuildDigest") (str i.robot_build_digest) (
                property (codes "clearanceId") (str i.clearance_id) (
                  property (codes "clearanceDigest") (str i.clearance_digest) (
                    property (codes "targetEnvironment") (str (codes "sepolia")) (
                      property (codes "nonce") (str i.nonce) (
                        property (codes "issuedAt") (str i.issued_at)
                          (property (codes "expiresAt") (str i.expires_at) end))))))))))))
