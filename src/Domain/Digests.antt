-- ===== src/Domain/Digests.antt =====
-- Domain-separated digests of the protocol's records (packages/domain/src/digests.ts). SHA-256
-- (@noble/hashes) and Unicode normalization (the platform's) are parameters.
use rovaulta.Domain.Identifiers.{parse_sha256_digest, parse_site_id, parse_safety_envelope_id}
use rovaulta.Domain.ReleaseSchemas.{
  parse_robot_build_descriptor, parse_clearance_record, parse_deployment_intent,
}
use rovaulta.Domain.Canonical.{hex_byte, canonical_serialize, utf8_encode}
use rovaulta.Errors.{Result, ◌>>=◌, ◌>>◌, require, protocol, digest_mismatch, malformed_object}
use rovaulta.Domain.Records.{object, property, of_inputs, of_robot_build, of_intent, of_clearance}
use rovaulta.Domain.Schemas.{
  legacy_version, current_version, parse_evaluation_inputs, is_legacy_version,
}
use rovaulta.Domain.Value.{Value, obj, get, str, end}
use rovaulta.Prelude.{Str, Bool, List, ℕ, ◌∷◌, codes, true, ◌++◌, length, false, str_eq, ◌==◌, []}

pub record Platform : Type 0 where
  pub is_nfc : Str → Bool
  pub sha256 : List ℕ → List ℕ

abbrev pub bytes_to_hex : List ℕ → Str
bytes_to_hex [] = []
bytes_to_hex (b ∷ bs) = hex_byte b ++ bytes_to_hex bs

-- `digestDomain` and `digestProtocolVersion`: the namespace follows the record's schema version.
abbrev pub in_namespace : Bool → Str → Str
in_namespace true suffix = legacy_version suffix
in_namespace false suffix = current_version suffix

abbrev pub frame : Str → Str → Value → Value
frame domain version payload = object (
    property (codes "domain") (str domain)
      (property (codes "protocolVersion") (str version) (property (codes "payload") payload end)))

module _ (p : Platform) where
  unfoldable pub digest_frame : Bool → Str → Value → Result Str
  digest_frame is_legacy suffix payload = do
    text ← canonical_serialize p.is_nfc (
        frame (in_namespace is_legacy suffix) (in_namespace is_legacy (codes "protocol/v1"))
          payload)
    parse_sha256_digest (str (codes "sha256:" ++ bytes_to_hex (p.sha256 (utf8_encode text))))

  unfoldable pub digest_robot_build : Value → Result Str
  unfolding digest_frame
  digest_robot_build input = do
    descriptor ← parse_robot_build_descriptor input
    digest_frame (is_legacy_version descriptor.schema_version) (codes "digest.robot-build/v1")
        (of_robot_build descriptor)

  unfoldable pub digest_evaluation_inputs : Value → Result Str
  unfolding digest_frame
  digest_evaluation_inputs input = do
    inputs ← parse_evaluation_inputs input
    digest_frame (is_legacy_version inputs.schema_version) (codes "digest.evaluation-inputs/v1")
        (of_inputs inputs)

  unfoldable pub digest_clearance : Value → Result Str
  unfolding digest_frame digest_evaluation_inputs
  digest_clearance input = do
    clearance ← parse_clearance_record input
    inputs_digest ← digest_evaluation_inputs (of_inputs clearance.inputs)
    require (str_eq clearance.evaluation_inputs_digest inputs_digest) (protocol digest_mismatch)
    digest_frame (is_legacy_version clearance.schema_version) (codes "digest.clearance/v1")
        (of_clearance clearance)

  unfoldable pub digest_deployment_intent : Value → Result Str
  unfolding digest_frame
  digest_deployment_intent input = do
    intent ← parse_deployment_intent input
    digest_frame (is_legacy_version intent.schema_version) (codes "digest.deployment-intent/v1")
        (of_intent intent)

  -- `confidentialPayload?.schemaVersion`
  payload_is_legacy : Value → Bool
  payload_is_legacy (obj plain fs) = elim (get (codes "schemaVersion") fs) [
    | str v ↦ is_legacy_version v
    | _ ↦ false
  ]
  payload_is_legacy _ = false

  -- The blind is a list of bytes.
  unfoldable pub digest_safety_envelope_commitment : Value → Value → Value → List ℕ → Result Str
  unfolding digest_frame payload_is_legacy
  digest_safety_envelope_commitment site_id envelope_id payload blind = do
    require (length blind == 32) (protocol malformed_object)
    site ← parse_site_id site_id
    envelope ← parse_safety_envelope_id envelope_id
    let is_legacy = payload_is_legacy payload
    digest_frame is_legacy (codes "digest.safety-envelope-commitment/v1") (
        object (
          property (codes "schemaVersion")
            (str (in_namespace is_legacy (codes "safety-envelope-commitment/v1")))
            (property (codes "siteId") (str site) (
              property (codes "safetyEnvelopeId") (str envelope) (
                property (codes "confidentialPayload") payload
                  (property (codes "blindingSecret") (str (bytes_to_hex blind)) end))))))
