-- ===== src/Release/Service.antt =====
-- The release service (apps/api/src/release/release-service.ts). A call is given what it reads from
-- outside: the registry reader as a function, the random bytes of a nonce, and whether the database
-- runs its statement. `JSON.parse` and `toLowerCase` are the runtime's.
use rovaulta.Prelude.Int.{pos}
use rovaulta.Chain.Numbers.{show_bigint}
use rovaulta.Domain.Timestamps.{to_number, parse_unix_timestamp}
use rovaulta.Domain.Identifiers.{
  parse_site_id, parse_deployment_nonce, parse_robot_id, parse_robot_build_id, parse_sha256_digest,
}
use rovaulta.Chain.Transport.{sepolia_chain_id}
use rovaulta.Domain.Digests.{bytes_to_hex}
use rovaulta.Chain.Registry.{ClearanceRegistrySnapshot}
use rovaulta.Errors.{
  Result, ◌>>=◌, ok, ◌>>◌, require, err, release, clearance_binding_mismatch, reject, fail_release,
  clearance_invalidated, malformed_request, protocol, clearance_expired, other_error, agent,
  application,
}
use rovaulta.Domain.Value.{Value, str, integer, end}
use rovaulta.Domain.Records.{ClearanceRecord, DeploymentIntent, object, property, of_intent}
use rovaulta.Prelude.{
  Str, Option, codes, List, ℕ, none, str_eq, if◌then◌else◌, some, ltb, ◌+◌, ◌||◌, leb,
}

pub record Runtime : Type 0 where
  pub parse_json : Str → Option Value
  pub to_lower_case : Str → Str

-- `ClearanceRegistryReader`
abbrev pub Reader : Type 0
Reader = ClearanceRecord → Result ClearanceRegistrySnapshot

pub record DeploymentProposal : Type 0 where
  pub site_id : Value
  pub robot_id : Value
  pub robot_build_id : Value
  pub robot_build_digest : Value
  pub clearance : Value
  pub signer_address : Str
  pub account_id : Option Str

pub record PreparedReleaseRequest : Type 0 where
  pub intent : DeploymentIntent
  pub authorized_signer : Str
  pub protocol_intent_digest : Str
  pub typed_data_digest : Str
  pub block_number : Str
  pub block_hash : Str
  pub block_timestamp : Str

-- The action and the chain have one value each, and no field.
pub record ReleaseAuthorization : Type 0 where
  pub schema_version : Str
  pub intent : DeploymentIntent
  pub protocol_intent_digest : Str
  pub typed_data_digest : Str
  pub registry : Str
  pub recovered_signer : Str
  pub signature_hash : Str
  pub authorized_at : Str
  pub expires_at : Str
  pub precheck_block_number : Str
  pub precheck_block_hash : Str
  pub postcheck_block_number : Str
  pub postcheck_block_hash : Str

abbrev pub authorization_suffix : Str
authorization_suffix = codes "release-authorization/v1"

abbrev pub of_authorization : ReleaseAuthorization → Value
of_authorization a = object (
    property (codes "schemaVersion") (str a.schema_version) (
      property (codes "intent") (of_intent a.intent) (
        property (codes "protocolIntentDigest") (str a.protocol_intent_digest) (
          property (codes "typedDataDigest") (str a.typed_data_digest) (
            property (codes "action") (str (codes "ACTIVATE_DEPLOYMENT")) (
              property (codes "chainId") (integer (pos sepolia_chain_id)) (
                property (codes "registry") (str a.registry) (
                  property (codes "recoveredSigner") (str a.recovered_signer) (
                    property (codes "signatureHash") (str a.signature_hash) (
                      property (codes "authorizedAt") (str a.authorized_at) (
                        property (codes "expiresAt") (str a.expires_at) (
                          property (codes "precheckBlockNumber") (str a.precheck_block_number) (
                            property (codes "precheckBlockHash") (str a.precheck_block_hash) (
                              property (codes "postcheckBlockNumber") (str a.postcheck_block_number)
                                (property (codes "postcheckBlockHash") (str a.postcheck_block_hash)
                                  end)))))))))))))))

-- `parse(value) !== expected`, where the parser may throw.
abbrev pub assert_parses_to : Result Str → Str → Result (Unit {0})
assert_parses_to parsed expected =
    parsed >>= λ s. require (str_eq s expected) (release clearance_binding_mismatch)

unfoldable pub assert_proposal_bindings : DeploymentProposal → ClearanceRecord → Result (Unit {0})
assert_proposal_bindings proposal clearance = do
  assert_parses_to (parse_site_id proposal.site_id) clearance.inputs.site_id
  assert_parses_to (parse_robot_id proposal.robot_id) clearance.inputs.robot_id
  assert_parses_to (parse_robot_build_id proposal.robot_build_id) clearance.inputs.robot_build_id
  assert_parses_to (parse_sha256_digest proposal.robot_build_digest)
      clearance.inputs.robot_build_digest

-- `newNonce`, of its bytes: 16 random ones, or those of another factory
unfoldable pub new_nonce : List ℕ → Result Str
new_nonce bytes = parse_deployment_nonce (str (bytes_to_hex bytes))

unfoldable pub compute_expiry : ClearanceRegistrySnapshot → ClearanceRecord → ℕ → Result Str
compute_expiry snapshot clearance ttl = do
  let now = to_number snapshot.block_timestamp
  let clearance_expiry = to_number clearance.expires_at
  let expires_at = if ltb (now + ttl) clearance_expiry then now + ttl else clearance_expiry
  reject (leb expires_at now) (release clearance_expired)
  parse_unix_timestamp (str (show_bigint expires_at))

-- `options.intentTtlSeconds ?? 300`, which the constructor checks
unfoldable pub checked_ttl : Option ℕ → Result ℕ
checked_ttl option = do
  let ttl : ℕ = elim option [ none ↦ 300 | some seconds ↦ seconds ]
  reject (ltb ttl 1 || ltb 900 ttl) (release malformed_request)
  ok ttl

-- A `ReleaseGateError` becomes CLEARANCE_INVALIDATED; what else is thrown stays.
abbrev pub invalidated {ℓ} : {A : Type ℓ} → Result A → Result A
invalidated (ok a) = ok a
invalidated (err (release code)) = fail_release clearance_invalidated
invalidated (err (protocol code)) = err (protocol code)
invalidated (err (agent code)) = err (agent code)
invalidated (err (application code)) = err (application code)
invalidated (err other_error) = err other_error
