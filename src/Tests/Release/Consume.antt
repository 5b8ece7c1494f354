-- ===== src/Tests/Release/Consume.antt =====
-- A row that is consumed, and consumed again.
use rovaulta.Release.Operations.Answered.{consume_release-get_authorization_status}
use rovaulta.Release.Status.{get_authorization_status, awaiting_ledger}
use rovaulta.Prelude.Sort.{sort}
use rovaulta.Domain.Timestamps.{parse_expiry, compare_unix_timestamps, parse_unix_timestamp}
use rovaulta.Domain.Identifiers.{parse_deployment_nonce, parse_identifier, parse_sha256_digest}
use rovaulta.Chain.Numbers.{show_bigint}
use rovaulta.Chain.Transport.{protocol_digest_to_bytes32}
use rovaulta.Domain.Canonical.{utf8_encode, canonical_serialize}
use rovaulta.Domain.Digests.{digest_deployment_intent, digest_frame}
use rovaulta.Release.Signers.{assert_authorized}
use rovaulta.Release.Operations.Replay.{consume_release-replay}
use rovaulta.Domain.Schemas.{parse_evaluation_inputs, parse_verdict, expect_schema}
use rovaulta.Release.NonceStore.Update.{IsRecorded}
use rovaulta.Domain.ReleaseSchemas.{parse_clearance_record, parse_deployment_intent}
use rovaulta.Chain.TypedData.{
  build_deployment_typed_data, hash_release_signature, assert_canonical_signature,
  recover_deployment_intent_signer, assert_deployment_intent_signature,
}
use rovaulta.Chain.Registry.{assert_clearance_snapshot_eligible}
use rovaulta.Release.Operations.Effects.{consume_release_error, consume_release-IsGranted}
use rovaulta.Domain.Value.{str, expect_data_object, resolve_version, expect_exact_schema}
use rovaulta.Domain.Records.{of_intent}
use rovaulta.Release.Operations.Consumed.{IsIssuedRow, IsGranted}
use rovaulta.Tests.{returned, platform, has_returned}
use rovaulta.Tests.Release.{
  spent_row, returned, IsIssuedRow, of_intent, platform, encoding, str, signing,
  consume_release_error, runtime, sample_contract, sample_address, reader, input, stored_row,
  assert_clearance_snapshot_eligible, build_deployment_typed_data, signature,
  parse_clearance_record, IsRecorded, parse_evaluation_inputs, consume_release-replay,
  assert_authorized, digest_deployment_intent, utf8_encode, protocol_digest_to_bytes32, show_bigint,
  parse_deployment_nonce, parse_expiry, sort,
}
use rovaulta.Release.NonceStore.{Row, load, consume}
use rovaulta.Release.Service.{ReleaseAuthorization, PreparedReleaseRequest}
use rovaulta.Release.Operations.{
  consume_release, ConsumeReleaseRequest, authorize, find_issued, authorize_row, read_back,
  check_signature, check_after_signing, check_registry,
}
use rovaulta.Errors.{
  Result, ReleaseGateErrorCode, ok, release, err, replay_rejected, nonce_not_found,
}
use rovaulta.Prelude.{Str, ◌≡◌, List, ◌∷◌, [], none, true, ◌⊎◌, refl, codes}
use rovaulta.Tests.Records.{intent}

abbrev consumed_release : Result ReleaseAuthorization × List Row
consumed_release =
    consume_release platform encoding signing runtime sample_contract (sample_address ∷ []) true
      true reader input (stored_row ∷ [])

run_returns : has_returned (consumed_release.0) ≡ true
unfolding consume_release authorize find_issued load consume authorize_row read_back check_signature
    check_after_signing check_registry assert_clearance_snapshot_eligible
    build_deployment_typed_data parse_clearance_record parse_evaluation_inputs parse_verdict
    assert_authorized hash_release_signature assert_canonical_signature
    recover_deployment_intent_signer assert_deployment_intent_signature digest_deployment_intent
    digest_frame utf8_encode protocol_digest_to_bytes32 show_bigint parse_deployment_intent
    parse_deployment_nonce parse_expiry parse_identifier parse_sha256_digest compare_unix_timestamps
    parse_unix_timestamp canonical_serialize expect_schema expect_data_object resolve_version
    expect_exact_schema sort
run_returns = refl

abbrev authorization : ReleaseAuthorization
authorization = (returned (consumed_release.0) run_returns).0

run_lem : consumed_release ≡ (ok authorization, consumed_release.1)
run_lem i = ((returned (consumed_release.0) run_returns).1 i, consumed_release.1)

consume_release-IsGranted_example :
    (row : Row) × (text : Str) × IsIssuedRow platform encoding signing runtime sample_contract
      (sample_address ∷ [])
      true
      input
      (stored_row ∷ [])
      row
    × IsGranted platform encoding signing runtime sample_contract
        (sample_address ∷ [])
        reader
        signature
        row.request
        authorization
        text
    × IsRecorded authorization.intent.nonce text (consumed_release.1)
consume_release-IsGranted_example =
    consume_release-IsGranted platform encoding signing runtime sample_contract
      (sample_address ∷ []) true true reader input (stored_row ∷ []) (consumed_release.1)
      authorization (refl, tt) run_lem

replay_lem :
    consume_release platform encoding signing runtime sample_contract
      (sample_address ∷ [])
      true
      true
      reader
      input
      (spent_row ∷ [])
    ≡ (err (release replay_rejected), spent_row ∷ [])
unfolding consume_release authorize find_issued load consume authorize_row read_back check_signature
    check_after_signing check_registry assert_clearance_snapshot_eligible
    build_deployment_typed_data parse_clearance_record parse_evaluation_inputs parse_verdict
    assert_authorized hash_release_signature assert_canonical_signature
    recover_deployment_intent_signer assert_deployment_intent_signature digest_deployment_intent
    digest_frame utf8_encode protocol_digest_to_bytes32 show_bigint parse_deployment_intent
    parse_deployment_nonce parse_expiry parse_identifier parse_sha256_digest compare_unix_timestamps
    parse_unix_timestamp canonical_serialize expect_schema expect_data_object resolve_version
    expect_exact_schema sort
replay_lem = refl

consume_release_error_example : spent_row ∷ [] ≡ spent_row ∷ []
consume_release_error_example =
    consume_release_error platform encoding signing runtime sample_contract (sample_address ∷ [])
      true true reader input (spent_row ∷ []) (spent_row ∷ []) (release replay_rejected) (refl, tt)
      replay_lem

-- Another signature on the intent that was consumed.
abbrev again : ConsumeReleaseRequest
again = record { intent = of_intent intent; signature = str []; account_id = none }

supplied_lem : parse_deployment_intent again.intent ≡ ok authorization.intent
unfolding consume_release authorize find_issued load consume authorize_row read_back check_signature
    check_after_signing check_registry assert_clearance_snapshot_eligible
    build_deployment_typed_data parse_clearance_record parse_evaluation_inputs parse_verdict
    assert_authorized hash_release_signature assert_canonical_signature
    recover_deployment_intent_signer assert_deployment_intent_signature digest_deployment_intent
    digest_frame utf8_encode protocol_digest_to_bytes32 show_bigint parse_deployment_intent
    parse_deployment_nonce parse_expiry parse_identifier parse_sha256_digest compare_unix_timestamps
    parse_unix_timestamp canonical_serialize expect_schema expect_data_object resolve_version
    expect_exact_schema sort returned
supplied_lem = refl

consume_release-replay_example :
    (e : ReleaseGateErrorCode) × (consume_release platform encoding signing runtime sample_contract
        (sample_address ∷ [])
        true
        true
        reader
        again
        (consumed_release.1)
      ≡ (err (release e), consumed_release.1))
    × ((e ≡ replay_rejected) ⊎ (e ≡ nonce_not_found))
consume_release-replay_example =
    consume_release-replay platform encoding signing runtime sample_contract (sample_address ∷ [])
      true true reader input (stored_row ∷ []) (consumed_release.1) authorization (refl, tt) run_lem
      true reader again authorization.intent supplied_lem refl

-- The request that was consumed.
abbrev asked : PreparedReleaseRequest
asked = record {
  intent = intent;
  authorized_signer = sample_address;
  protocol_intent_digest = stored_row.request.protocol_intent_digest;
  typed_data_digest = stored_row.request.typed_data_digest;
  block_number = codes "7";
  block_hash = codes "0xB1";
  block_timestamp = codes "3000";
}

consume_release-get_authorization_status_example : ¬ (
    get_authorization_status platform runtime sample_contract true asked none (consumed_release.1)
    ≡ ok awaiting_ledger)
consume_release-get_authorization_status_example =
    consume_release-get_authorization_status platform encoding signing runtime sample_contract
      (sample_address ∷ []) true true reader input (stored_row ∷ []) (consumed_release.1)
      authorization (refl, tt) run_lem true asked none authorization.intent supplied_lem refl
