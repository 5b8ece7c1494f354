-- ===== src/Chain/TypedData.antt =====
-- The EIP-712 message of an intent and its signature (packages/chain-client/src/eip712.ts). Hashing,
-- recovery and the normal form of addresses are viem's, and are parameters; `none` is a throw.
use rovaulta.Domain.Timestamps.{to_number}
use rovaulta.Chain.Transport.{protocol_digest_to_bytes32, sepolia_chain_id}
use rovaulta.Domain.Schemas.{is_legacy_version}
use rovaulta.Domain.ReleaseSchemas.{parse_deployment_intent}
use rovaulta.Errors.{
  Result, ◌>>=◌, ok, or_throw, ◌>>◌, release, require, unauthorized_signer, malformed_signature,
  signature_mismatch, fail_release,
}
use rovaulta.Domain.Digests.{Platform, digest_deployment_intent, in_namespace}
use rovaulta.Domain.Value.{Value, str}
use rovaulta.Domain.Records.{DeploymentIntent, of_intent}
use rovaulta.Prelude.{
  Str, ℕ, Option, Bool, codes, true, if◌then◌else◌, false, ◌&&◌, length, str_eq, ◌==◌,
}

-- The domain's version is always "1", and the types and the primary type are constants.
pub record PreparedDeploymentTypedData : Type 0 where
  pub domain_name : Str
  pub chain_id : ℕ
  pub verifying_contract : Str
  pub protocol_version : Str
  pub schema_version : Str
  pub action : Str
  pub site_id : Str
  pub robot_id : Str
  pub robot_build_id : Str
  pub robot_build_digest : Str
  pub clearance_id : Str
  pub clearance_digest : Str
  pub target_environment : Str
  pub authorized_signer : Str
  pub nonce : Str
  pub issued_at : ℕ
  pub expires_at : ℕ
  pub protocol_intent_digest : Str

pub record PreparedLedgerSigningRequest : Type 0 where
  pub intent : DeploymentIntent
  pub protocol_intent_digest : Str
  pub authorized_signer : Str
  pub typed_data : PreparedDeploymentTypedData
  pub typed_data_digest : Str

-- viem's `getAddress`, `hashTypedData`, `recoverTypedDataAddress`, `keccak256` and `isHex`.
pub record Signing : Type 0 where
  pub get_address : Str → Option Str
  pub hash_typed_data : PreparedDeploymentTypedData → Str
  pub recover_typed_data_address : PreparedDeploymentTypedData → Str → Option Str
  pub keccak256 : Str → Str
  pub is_hex_text : Str → Bool

-- `LEGACY_EIP712_NAME` or `ROVAULTA_EIP712_NAME`
abbrev pub eip712_name : Bool → Str
eip712_name true = codes "Preflight"
eip712_name false = codes "Rovaulta"

unfoldable pub assert_canonical_signature : Signing → Value → Result Str
assert_canonical_signature signing (str s) =
    if signing.is_hex_text s && length s == 132 then ok s else fail_release malformed_signature
assert_canonical_signature signing _ = fail_release malformed_signature

module _ (p : Platform) (signing : Signing) (contract : Str) where
  unfoldable pub build_deployment_typed_data : Value → Str → Result PreparedLedgerSigningRequest
  build_deployment_typed_data intent_input signer_input = do
    intent ← parse_deployment_intent intent_input
    signer ← or_throw (signing.get_address signer_input) (release unauthorized_signer)
    intent_digest ← digest_deployment_intent p (of_intent intent)
    let is_legacy = is_legacy_version intent.schema_version
    build_digest ← protocol_digest_to_bytes32 intent.robot_build_digest
    clearance_digest ← protocol_digest_to_bytes32 intent.clearance_digest
    intent_bytes ← protocol_digest_to_bytes32 intent_digest
    let message : PreparedDeploymentTypedData = record {
      domain_name = eip712_name is_legacy;
      chain_id = sepolia_chain_id;
      verifying_contract = contract;
      protocol_version = in_namespace is_legacy (codes "protocol/v1");
      schema_version = intent.schema_version;
      action = codes "ACTIVATE_DEPLOYMENT";
      site_id = intent.site_id;
      robot_id = intent.robot_id;
      robot_build_id = intent.robot_build_id;
      robot_build_digest = build_digest;
      clearance_id = intent.clearance_id;
      clearance_digest = clearance_digest;
      target_environment = codes "sepolia";
      authorized_signer = signer;
      nonce = intent.nonce;
      issued_at = to_number intent.issued_at;
      expires_at = to_number intent.expires_at;
      protocol_intent_digest = intent_bytes;
    }
    ok (record {
      intent = intent;
      protocol_intent_digest = intent_digest;
      authorized_signer = signer;
      typed_data = message;
      typed_data_digest = signing.hash_typed_data message;
    })

module _ (signing : Signing) where
  unfoldable pub hash_release_signature : Value → Result Str
  hash_release_signature input = do
    signature ← assert_canonical_signature signing input
    ok (signing.keccak256 signature)

  unfoldable pub recover_deployment_intent_signer :
      PreparedLedgerSigningRequest → Value → Result Str
  recover_deployment_intent_signer request input = do
    signature ← assert_canonical_signature signing input
    recovered ←
        or_throw (signing.recover_typed_data_address request.typed_data signature)
          (release malformed_signature)
    or_throw (signing.get_address recovered) (release malformed_signature)

  unfoldable pub assert_deployment_intent_signature :
      PreparedLedgerSigningRequest → Value → Result Str
  assert_deployment_intent_signature request input = do
    recovered ← recover_deployment_intent_signer request input
    require (str_eq recovered request.authorized_signer) (release signature_mismatch)
    ok recovered
