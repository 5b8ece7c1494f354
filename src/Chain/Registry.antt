-- ===== src/Chain/Registry.antt =====
-- The registry reader and the test of what it read (packages/chain-client/src/registry.ts). The
-- RPC client is a parameter: each of its calls answers or throws (`none`).
pub mod Reading
pub mod Exact
use rovaulta.Domain.Bindings.{is_before}
use rovaulta.Chain.Numbers.{show_bigint}
use rovaulta.Domain.Value.{str}
use rovaulta.Domain.Timestamps.{parse_unix_timestamp}
use rovaulta.Domain.ReleaseSchemas.{parse_clearance_record}
use rovaulta.Domain.Records.{ClearanceRecord, of_clearance}
use rovaulta.Domain.Digests.{Platform}
use rovaulta.Errors.{
  Result, ok, ◌>>◌, err, require, ◌>>=◌, release, or_throw, protocol, other_error, fail_release,
  wrong_chain, registry_unavailable, reject, clearance_not_found, clearance_not_clear,
  clearance_revoked, clearance_expired, clearance_binding_mismatch, agent, application,
}
use rovaulta.Chain.Transport.{
  ClearanceBindingsTransport, Encoding, ClearanceTransport, verdict_clear, sepolia_chain_id,
  clearance_record_to_transport, zero_bytes32,
}
use rovaulta.Prelude.{
  Str, ℕ, Option, Bool, str_eq, true, ◌&&◌, ◌==◌, some, codes, none, if◌then◌else◌, ◌||◌, not,
  false,
}

pub record StoredClearanceTransport : Type 0 where
  pub clearance_digest : Str
  pub bindings : ClearanceBindingsTransport
  pub verdict : Str
  pub issuer : Str
  pub revoked : Bool
  pub exists : Bool

pub record ClearanceRegistrySnapshot : Type 0 where
  pub chain_id : ℕ
  pub registry : Str
  pub block_number : ℕ
  pub block_hash : Str
  pub block_timestamp : Str
  pub requested : ClearanceTransport
  pub stored : Option StoredClearanceTransport
  pub exact_match : Bool

pub record Block : Type 0 where
  pub hash : Str
  pub timestamp : ℕ

-- The calls of viem's public client. Those on a contract take its address, the arguments and the
-- block at which it is read.
pub record RpcClient : Type 0 where
  pub get_chain_id : Option ℕ
  pub get_block_number : Option ℕ
  pub get_block : ℕ → Option Block
  pub get_code : Str → ℕ → Option (Option Str)
  pub clearance_digest_by_id_hash : Str → Str → ℕ → Option Str
  pub get_clearance : Str → Str → ℕ → Option StoredClearanceTransport
  pub is_clearance_valid_for : Str → Str → ClearanceBindingsTransport → ℕ → Option Bool

unfoldable pub same_bindings : ClearanceBindingsTransport → ClearanceBindingsTransport → Bool
same_bindings left right =
    str_eq left.clearance_id_hash right.clearance_id_hash
    && str_eq left.evaluation_id_hash right.evaluation_id_hash
    && str_eq left.site_id_hash right.site_id_hash
    && str_eq left.robot_id_hash right.robot_id_hash
    && str_eq left.robot_build_id_hash right.robot_build_id_hash
    && str_eq left.robot_build_digest right.robot_build_digest
    && str_eq left.safety_envelope_id_hash right.safety_envelope_id_hash
    && str_eq left.safety_envelope_commitment right.safety_envelope_commitment
    && str_eq left.evaluator_version_hash right.evaluator_version_hash
    && str_eq left.evaluation_inputs_digest right.evaluation_inputs_digest
    && left.issued_at == right.issued_at
    && left.expires_at == right.expires_at

-- `code === undefined || code === "0x"`
abbrev pub has_no_code : Option Str → Bool
has_no_code none = true
has_no_code (some code) = str_eq code (codes "0x")

-- The `catch` of `readExactClearance`: what is not a `ReleaseGateError` closes as unavailable.
abbrev pub fail_closed {ℓ} : {A : Type ℓ} → Result A → Result A
fail_closed (ok a) = ok a
fail_closed (err (release code)) = err (release code)
fail_closed (err (protocol code)) = fail_release registry_unavailable
fail_closed (err (agent code)) = fail_release registry_unavailable
fail_closed (err (application code)) = fail_release registry_unavailable
fail_closed (err other_error) = fail_release registry_unavailable

module _ (p : Platform) (encoding : Encoding) (contract : Str) where
  -- `independentlyExact`
  abbrev pub is_exact : StoredClearanceTransport → ClearanceTransport → Bool
  is_exact stored requested =
      stored.exists
      && str_eq stored.clearance_digest requested.clearance_digest
      && str_eq stored.verdict (verdict_clear encoding)
      && same_bindings stored.bindings requested.bindings

  abbrev pub snapshot_at :
      ClearanceTransport
      → ℕ
      → Block
      → Str
      → Option StoredClearanceTransport
      → Bool
      → ClearanceRegistrySnapshot
  snapshot_at requested number block timestamp stored exact = record {
    chain_id = sepolia_chain_id;
    registry = contract;
    block_number = number;
    block_hash = block.hash;
    block_timestamp = timestamp;
    requested = requested;
    stored = stored;
    exact_match = exact;
  }

  -- The body of the `try`.
  unfoldable pub read_registry : RpcClient → ClearanceTransport → Result ClearanceRegistrySnapshot
  read_registry client requested = do
    chain_id ← or_throw client.get_chain_id other_error
    require (chain_id == sepolia_chain_id) (release wrong_chain)
    block_number ← or_throw client.get_block_number other_error
    block ← or_throw (client.get_block block_number) other_error
    code ← or_throw (client.get_code contract block_number) other_error
    reject (has_no_code code) (release registry_unavailable)
    registered ←
        or_throw
          (client.clearance_digest_by_id_hash contract requested.bindings.clearance_id_hash
            block_number)
          other_error
    timestamp ← parse_unix_timestamp (str (show_bigint block.timestamp))
    if str_eq registered zero_bytes32 || not (str_eq registered requested.clearance_digest)
        then ok (snapshot_at requested block_number block timestamp none false)
        else do
          stored ←
              or_throw (client.get_clearance contract requested.clearance_digest block_number)
                other_error
          exact ←
              or_throw
                (client.is_clearance_valid_for contract requested.clearance_digest
                  requested.bindings block_number)
                other_error
          ok (
              snapshot_at requested block_number block timestamp (some stored)
                (exact && is_exact stored requested))

  unfoldable pub read_exact_clearance :
      RpcClient → ClearanceRecord → Result ClearanceRegistrySnapshot
  read_exact_clearance client input = do
    clearance ← parse_clearance_record (of_clearance input)
    requested ← clearance_record_to_transport p encoding (of_clearance clearance)
    fail_closed (read_registry client requested)

module _ (encoding : Encoding) (contract : Str) where
  unfoldable pub assert_clearance_snapshot_eligible :
      ClearanceRegistrySnapshot → Result ClearanceRegistrySnapshot
  assert_clearance_snapshot_eligible snapshot = do
    require (snapshot.chain_id == sepolia_chain_id) (release wrong_chain)
    require (str_eq snapshot.registry contract) (release registry_unavailable)
    stored ← or_throw snapshot.stored (release clearance_not_found)
    require (str_eq stored.verdict (verdict_clear encoding)) (release clearance_not_clear)
    reject stored.revoked (release clearance_revoked)
    expiry ← parse_unix_timestamp (str (show_bigint stored.bindings.expires_at))
    require (is_before snapshot.block_timestamp expiry) (release clearance_expired)
    require snapshot.exact_match (release clearance_binding_mismatch)
    ok snapshot
