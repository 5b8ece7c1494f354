-- ===== src/Chain/Transport.antt =====
-- The registry's form of a clearance (packages/chain-client/src/transport.ts). The functions of viem
-- are parameters.
use rovaulta.Domain.Timestamps.{to_number}
use rovaulta.Domain.Records.{of_clearance}
use rovaulta.Domain.ReleaseSchemas.{parse_clearance_record}
use rovaulta.Domain.Identifiers.{is_sha256, drop}
use rovaulta.Domain.Value.{Value}
use rovaulta.Domain.Digests.{Platform, digest_clearance}
use rovaulta.Errors.{Result, ◌>>=◌, ok, err, other_error}
use rovaulta.Prelude.{Str, ℕ, codes, if◌then◌else◌, ◌++◌}

-- The address of the registry contract, `ROVAULTA_SEPOLIA_DEPLOYMENT.verifyingContract`, is read
-- from a file of deployment data; its chain is always Sepolia.
abbrev pub sepolia_chain_id : ℕ
sepolia_chain_id = 11_155_111

-- viem's `sha256(toBytes(text))` and `stringToHex(text, { size })`.
pub record Encoding : Type 0 where
  pub sha256_of_text : Str → Str
  pub string_to_hex : Str → ℕ → Str

pub record ClearanceBindingsTransport : Type 0 where
  pub clearance_id_hash : Str
  pub evaluation_id_hash : Str
  pub site_id_hash : Str
  pub robot_id_hash : Str
  pub robot_build_id_hash : Str
  pub robot_build_digest : Str
  pub safety_envelope_id_hash : Str
  pub safety_envelope_commitment : Str
  pub evaluator_version_hash : Str
  pub evaluation_inputs_digest : Str
  pub issued_at : ℕ
  pub expires_at : ℕ

pub record ClearanceTransport : Type 0 where
  pub clearance_digest : Str
  pub bindings : ClearanceBindingsTransport
  pub verdict : Str

-- `VERDICT_CLEAR_BYTES32`
abbrev pub verdict_clear : Encoding → Str
verdict_clear encoding = encoding.string_to_hex (codes "CLEAR") 32

-- `ZERO_BYTES32`
abbrev pub zero_bytes32 : Str
zero_bytes32 = codes "0x0000000000000000000000000000000000000000000000000000000000000000"

-- A digest that is not canonical makes it throw a `TypeError`.
unfoldable pub protocol_digest_to_bytes32 : Str → Result Str
protocol_digest_to_bytes32 value =
    if is_sha256 value then ok (codes "0x" ++ drop 7 value) else err other_error

module _ (p : Platform) (encoding : Encoding) where
  unfoldable pub clearance_record_to_transport : Value → Result ClearanceTransport
  clearance_record_to_transport input = do
    clearance ← parse_clearance_record input
    digest ← digest_clearance p (of_clearance clearance)
    clearance_digest ← protocol_digest_to_bytes32 digest
    build_digest ← protocol_digest_to_bytes32 clearance.inputs.robot_build_digest
    commitment ← protocol_digest_to_bytes32 clearance.inputs.safety_envelope_commitment
    inputs_digest ← protocol_digest_to_bytes32 clearance.evaluation_inputs_digest
    ok (record {
      clearance_digest = clearance_digest;
      bindings = record {
        clearance_id_hash = encoding.sha256_of_text clearance.clearance_id;
        evaluation_id_hash = encoding.sha256_of_text clearance.evaluation_id;
        site_id_hash = encoding.sha256_of_text clearance.inputs.site_id;
        robot_id_hash = encoding.sha256_of_text clearance.inputs.robot_id;
        robot_build_id_hash = encoding.sha256_of_text clearance.inputs.robot_build_id;
        robot_build_digest = build_digest;
        safety_envelope_id_hash = encoding.sha256_of_text clearance.inputs.safety_envelope_id;
        safety_envelope_commitment = commitment;
        evaluator_version_hash = encoding.sha256_of_text clearance.inputs.evaluator_version;
        evaluation_inputs_digest = inputs_digest;
        issued_at = to_number clearance.issued_at;
        expires_at = to_number clearance.expires_at;
      };
      verdict = verdict_clear encoding;
    })
