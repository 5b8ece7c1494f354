-- ===== src/Release/Operations.antt =====
-- `prepare` and `consume` of the release service (apps/api/src/release/release-service.ts): each is
-- a computation that reads, and then one call on the store. Both statements of `consume` see the
-- same rows; calls that come between them are sequences of calls on the store (NonceStore).
pub mod Authorized
pub mod Consumed
pub mod Effects
pub mod Replay
pub mod Expiry
pub mod Issued
pub mod Pending
pub mod Answered
use rovaulta.Domain.Canonical.{canonical_serialize}
use rovaulta.Domain.Bindings.{create_deployment_intent, is_before}
use rovaulta.Domain.Timestamps.{to_number}
use rovaulta.Release.Signers.{assert_authorized}
use rovaulta.Domain.ReleaseSchemas.{parse_clearance_record, parse_deployment_intent}
use rovaulta.Domain.Schemas.{current_version}
use rovaulta.Errors.{
  Result, ◌>>=◌, err, or_throw, ok, other_error, ◌>>◌, reject, require, release, signature_mismatch,
  clearance_invalidated, replay_rejected, intent_expired,
}
use rovaulta.Chain.Numbers.{show_bigint}
use rovaulta.Release.NonceStore.{StoredReleaseRequest, Row, load, issue, consume, is_issued}
use rovaulta.Chain.TypedData.{
  PreparedLedgerSigningRequest, Signing, build_deployment_typed_data,
  assert_deployment_intent_signature, hash_release_signature,
}
use rovaulta.Chain.Transport.{Encoding}
use rovaulta.Chain.Registry.{ClearanceRegistrySnapshot, assert_clearance_snapshot_eligible}
use rovaulta.Domain.Digests.{Platform}
use rovaulta.Domain.Value.{Value}
use rovaulta.Domain.Records.{DeploymentIntent, ClearanceRecord, of_intent, of_clearance}
use rovaulta.Release.Service.{
  DeploymentProposal, PreparedReleaseRequest, Runtime, Reader, ReleaseAuthorization, invalidated,
  authorization_suffix, assert_proposal_bindings, new_nonce, compute_expiry, of_authorization,
}
use rovaulta.Prelude.{Str, Option, List, Bool, ℕ, str_eq, ltb}

abbrev pub stored_request :
    DeploymentProposal
    → DeploymentIntent
    → ClearanceRegistrySnapshot
    → PreparedLedgerSigningRequest
    → Str
    → Str
    → Str
    → StoredReleaseRequest
stored_request proposal intent snapshot prepared signer intent_json clearance_json = record {
  nonce = intent.nonce;
  account_id = proposal.account_id;
  intent_json = intent_json;
  clearance_json = clearance_json;
  authorized_signer = signer;
  protocol_intent_digest = prepared.protocol_intent_digest;
  typed_data_digest = prepared.typed_data_digest;
  precheck_block_number = show_bigint snapshot.block_number;
  precheck_block_hash = snapshot.block_hash;
  precheck_block_timestamp = snapshot.block_timestamp;
}

abbrev pub prepared_release :
    DeploymentIntent
    → ClearanceRegistrySnapshot
    → PreparedLedgerSigningRequest
    → Str
    → PreparedReleaseRequest
prepared_release intent snapshot prepared signer = record {
  intent = intent;
  authorized_signer = signer;
  protocol_intent_digest = prepared.protocol_intent_digest;
  typed_data_digest = prepared.typed_data_digest;
  block_number = show_bigint snapshot.block_number;
  block_hash = snapshot.block_hash;
  block_timestamp = snapshot.block_timestamp;
}

-- `{ intent, signature, accountId }`
pub record ConsumeReleaseRequest : Type 0 where
  pub intent : Value
  pub signature : Value
  pub account_id : Option Str

module _ (p : Platform) (encoding : Encoding) (signing : Signing) (runtime : Runtime)
    (contract : Str) (signers : List Str) where
  -- `assertClearanceSnapshotEligible(await reader.readExactClearance(clearance))`
  unfoldable pub check_registry : Reader → ClearanceRecord → Result ClearanceRegistrySnapshot
  check_registry reader clearance =
      reader clearance >>= assert_clearance_snapshot_eligible encoding contract

  -- All of `prepare` before the nonce is issued.
  unfoldable pub prepare_request :
      Reader
      → ℕ
      → List ℕ
      → DeploymentProposal
      → Result (StoredReleaseRequest × PreparedReleaseRequest)
  prepare_request reader ttl random_bytes proposal = do
    clearance ← parse_clearance_record proposal.clearance
    assert_proposal_bindings proposal clearance
    signer ← assert_authorized signing signers proposal.signer_address
    snapshot ← check_registry reader clearance
    nonce ← new_nonce random_bytes
    expires_at ← compute_expiry snapshot clearance ttl
    intent ←
        create_deployment_intent p (of_clearance clearance)
          (record { nonce = nonce; issued_at = snapshot.block_timestamp; expires_at = expires_at })
    prepared ← build_deployment_typed_data p signing contract (of_intent intent) signer
    intent_json ← canonical_serialize p.is_nfc (of_intent intent)
    clearance_json ← canonical_serialize p.is_nfc (of_clearance clearance)
    ok (
      stored_request proposal intent snapshot prepared signer intent_json clearance_json,
      prepared_release intent snapshot prepared signer,
    )

  unfoldable pub prepare :
      Reader
      → ℕ
      → List ℕ
      → Bool
      → DeploymentProposal
      → List Row
      → Result PreparedReleaseRequest × List Row
  prepare reader ttl random_bytes available proposal rows =
      elim (prepare_request reader ttl random_bytes proposal) [
        | err e ↦ (err e, rows)
        | ok (request, prepared) ↦
            let (issued, rest) = issue available request rows in (issued >> ok prepared, rest)
      ]

  -- The intent and the clearance of a row, as they are read back.
  unfoldable pub read_back : StoredReleaseRequest → Result (DeploymentIntent × ClearanceRecord)
  read_back stored = do
    intent_value ← or_throw (runtime.parse_json stored.intent_json) other_error
    intent ← parse_deployment_intent intent_value
    clearance_value ← or_throw (runtime.parse_json stored.clearance_json) other_error
    clearance ← parse_clearance_record clearance_value
    ok (intent, clearance)

  -- The signing request of a row, made again, and the signer of the signature on it.
  unfoldable pub check_signature :
      StoredReleaseRequest → DeploymentIntent → Value → Result (PreparedLedgerSigningRequest × Str)
  check_signature stored intent signature = do
    signer ← assert_authorized signing signers stored.authorized_signer
    prepared ← build_deployment_typed_data p signing contract (of_intent intent) signer
    require (str_eq prepared.protocol_intent_digest stored.protocol_intent_digest)
        (release signature_mismatch)
    require (str_eq prepared.typed_data_digest stored.typed_data_digest)
        (release signature_mismatch)
    recovered ← assert_deployment_intent_signature signing prepared signature
    allowed ← assert_authorized signing signers recovered
    ok (prepared, recovered)

  -- The registry after the signature: still eligible, not behind the first reading, and the intent
  -- not yet expired. The stored block number is the decimal text that `prepare` wrote, on which
  -- `BigInt` does not throw.
  unfoldable pub check_after_signing :
      Reader
      → StoredReleaseRequest
      → DeploymentIntent
      → ClearanceRecord
      → Result ClearanceRegistrySnapshot
  check_after_signing reader stored intent clearance = do
    postcheck ← invalidated (check_registry reader clearance)
    reject (ltb postcheck.block_number (to_number stored.precheck_block_number))
        (release clearance_invalidated)
    require (is_before postcheck.block_timestamp intent.expires_at) (release intent_expired)
    ok postcheck

  abbrev pub authorization_of :
      StoredReleaseRequest
      → DeploymentIntent
      → PreparedLedgerSigningRequest
      → Str
      → ClearanceRegistrySnapshot
      → Str
      → ReleaseAuthorization
  authorization_of stored intent prepared recovered postcheck signature_hash = record {
    schema_version = current_version authorization_suffix;
    intent = intent;
    protocol_intent_digest = prepared.protocol_intent_digest;
    typed_data_digest = prepared.typed_data_digest;
    registry = contract;
    recovered_signer = recovered;
    signature_hash = signature_hash;
    authorized_at = postcheck.block_timestamp;
    expires_at = intent.expires_at;
    precheck_block_number = stored.precheck_block_number;
    precheck_block_hash = stored.precheck_block_hash;
    postcheck_block_number = show_bigint postcheck.block_number;
    postcheck_block_hash = postcheck.block_hash;
  }

  -- The row that was issued for exactly the supplied intent. The first argument says whether the
  -- database runs the `SELECT`.
  unfoldable pub find_issued : Bool → ConsumeReleaseRequest → List Row → Result Row
  find_issued available input rows = do
    supplied ← parse_deployment_intent input.intent
    row ← load available supplied.nonce input.account_id rows
    require (is_issued row.state) (release replay_rejected)
    supplied_json ← canonical_serialize p.is_nfc (of_intent supplied)
    require (str_eq supplied_json row.request.intent_json) (release signature_mismatch)
    ok row

  -- The authorization for an issued row, and its text.
  unfoldable pub authorize_row :
      Reader → Value → StoredReleaseRequest → Result (ReleaseAuthorization × Str)
  authorize_row reader signature stored = do
    (intent, clearance) ← read_back stored
    (prepared, recovered) ← check_signature stored intent signature
    postcheck ← check_after_signing reader stored intent clearance
    signature_hash ← hash_release_signature signing signature
    let authorization = authorization_of stored intent prepared recovered postcheck signature_hash
    text ← canonical_serialize p.is_nfc (of_authorization authorization)
    ok (authorization, text)

  -- All of `consume` before the nonce is consumed.
  unfoldable pub authorize :
      Bool → Reader → ConsumeReleaseRequest → List Row → Result (ReleaseAuthorization × Str)
  authorize available reader input rows =
      find_issued available input rows >>= λ row. authorize_row reader input.signature row.request

  unfoldable pub consume_release :
      Bool
      → Bool
      → Reader
      → ConsumeReleaseRequest
      → List Row
      → Result ReleaseAuthorization × List Row
  consume_release loads updates reader input rows = elim (authorize loads reader input rows) [
    | err e ↦ (err e, rows)
    | ok (authorization, text) ↦
        let (consumed, rest) =
          consume updates authorization.intent.nonce text input.account_id rows in
        (consumed >> ok authorization, rest)
  ]
