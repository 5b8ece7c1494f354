-- ===== src/Tests/Release/Prepare.antt =====
-- A clearance that is prepared, and the intent that is read back.
use rovaulta.Release.Operations.Pending.{prepare-get_authorization_status}
use rovaulta.Domain.ReleaseSchemas.Clearance.{
  IsValidClearance, parse_clearance_record-IsValidClearance, parse_clearance_record-of_clearance,
}
use rovaulta.Release.Status.{get_authorization_status, awaiting_ledger}
use rovaulta.Prelude.Sort.{sort}
use rovaulta.Chain.Transport.{protocol_digest_to_bytes32}
use rovaulta.Domain.Canonical.{utf8_encode, canonical_serialize}
use rovaulta.Release.Signers.{assert_authorized}
use rovaulta.Chain.TypedData.{
  build_deployment_typed_data, hash_release_signature, assert_canonical_signature,
  recover_deployment_intent_signer, assert_deployment_intent_signature,
}
use rovaulta.Release.Operations.Issued.{IsPrepared, prepare-IsPrepared}
use rovaulta.Domain.Value.{expect_data_object, resolve_version, expect_exact_schema}
use rovaulta.Domain.Bindings.{assert_deployment_intent_bindings, create_deployment_intent}
use rovaulta.Domain.Schemas.{expect_schema, parse_evaluation_inputs, parse_verdict}
use rovaulta.Domain.Digests.{
  digest_clearance, digest_evaluation_inputs, digest_deployment_intent, digest_frame,
}
use rovaulta.Release.Operations.Effects.{prepare_error}
use rovaulta.Chain.Numbers.Decimal.{to_number-show_bigint}
use rovaulta.Release.NonceStore.{issue, Row, has_nonce, issued}
use rovaulta.Chain.Numbers.{show_bigint}
use rovaulta.Domain.Identifiers.{parse_deployment_nonce, parse_identifier, parse_sha256_digest}
use rovaulta.Chain.Registry.{ClearanceRegistrySnapshot, assert_clearance_snapshot_eligible}
use rovaulta.Tests.{returned, platform, has_returned}
use rovaulta.Domain.Timestamps.{
  to_number, parse_expiry, compare_unix_timestamps, parse_unix_timestamp,
}
use rovaulta.Domain.ReleaseSchemas.Intent.{
  IsValidIntent, parse_deployment_intent-IsValidIntent, parse_deployment_intent-of_intent,
}
use rovaulta.Domain.ReleaseSchemas.{parse_deployment_intent, parse_clearance_record}
use rovaulta.Domain.Records.{ClearanceRecord, of_intent, of_clearance}
use rovaulta.Release.Service.{
  PreparedReleaseRequest, new_nonce, compute_expiry, assert_proposal_bindings,
}
use rovaulta.Errors.{Result, ok, release, persistence_unavailable, err}
use rovaulta.Tests.Release.{
  spent_row, returned, ClearanceRegistrySnapshot, parse_deployment_nonce, show_bigint, issue, Row,
  to_number-show_bigint, prepare_error, encoding, proposal, signing, digest_clearance, runtime,
  sample_contract, expect_schema, assert_deployment_intent_bindings, sample_address,
  expect_data_object, reader, nonce_bytes, IsPrepared, build_deployment_typed_data,
  assert_authorized, utf8_encode, protocol_digest_to_bytes32, sort,
}
use rovaulta.Release.Operations.{
  prepare, prepare_request, check_registry, read_back, check_signature, check_after_signing,
}
use rovaulta.Prelude.{◌≡◌, List, ◌∷◌, [], false, true, any, refl, ◌++◌, none}
use rovaulta.Tests.Records.{intent, clearance}

prepare_lem :
    prepare platform encoding signing runtime sample_contract
      (sample_address ∷ [])
      reader
      300
      nonce_bytes
      false
      proposal
      (spent_row ∷ [])
    ≡ (err (release persistence_unavailable), spent_row ∷ [])
unfolding prepare prepare_request issue new_nonce compute_expiry assert_proposal_bindings
    digest_clearance digest_evaluation_inputs assert_deployment_intent_bindings
    create_deployment_intent read_back check_signature check_after_signing check_registry
    assert_clearance_snapshot_eligible build_deployment_typed_data parse_clearance_record
    parse_evaluation_inputs parse_verdict assert_authorized hash_release_signature
    assert_canonical_signature recover_deployment_intent_signer assert_deployment_intent_signature
    digest_deployment_intent digest_frame utf8_encode protocol_digest_to_bytes32 show_bigint
    parse_deployment_intent parse_deployment_nonce parse_expiry parse_identifier parse_sha256_digest
    compare_unix_timestamps parse_unix_timestamp canonical_serialize expect_schema
    expect_data_object resolve_version expect_exact_schema sort
prepare_lem = refl

prepare_error_example : spent_row ∷ [] ≡ spent_row ∷ []
prepare_error_example =
    prepare_error platform encoding signing runtime sample_contract (sample_address ∷ []) reader 300
      nonce_bytes false proposal (spent_row ∷ []) (spent_row ∷ []) (release persistence_unavailable)
      prepare_lem

abbrev prepared_release_run : Result PreparedReleaseRequest × List Row
prepared_release_run =
    prepare platform encoding signing runtime sample_contract (sample_address ∷ []) reader 300
      nonce_bytes true proposal (spent_row ∷ [])

prepare_returns : has_returned (prepared_release_run.0) ≡ true
unfolding prepare prepare_request issue new_nonce compute_expiry assert_proposal_bindings
    digest_clearance digest_evaluation_inputs assert_deployment_intent_bindings
    create_deployment_intent read_back check_signature check_after_signing check_registry
    assert_clearance_snapshot_eligible build_deployment_typed_data parse_clearance_record
    parse_evaluation_inputs parse_verdict assert_authorized hash_release_signature
    assert_canonical_signature recover_deployment_intent_signer assert_deployment_intent_signature
    digest_deployment_intent digest_frame utf8_encode protocol_digest_to_bytes32 show_bigint
    parse_deployment_intent parse_deployment_nonce parse_expiry parse_identifier parse_sha256_digest
    compare_unix_timestamps parse_unix_timestamp canonical_serialize expect_schema
    expect_data_object resolve_version expect_exact_schema sort
prepare_returns = refl

abbrev prepared : PreparedReleaseRequest
prepared = (returned (prepared_release_run.0) prepare_returns).0

prepared_lem : prepared_release_run ≡ (ok prepared, prepared_release_run.1)
prepared_lem i = ((returned (prepared_release_run.0) prepare_returns).1 i, prepared_release_run.1)

prepare-IsPrepared_example :
    (c : ClearanceRecord) × (s : ClearanceRegistrySnapshot) × (row : Row) × (parse_clearance_record
        proposal.clearance
      ≡ ok c)
    × (check_registry platform encoding signing runtime sample_contract
          (sample_address ∷ [])
          reader
          c
        ≡ ok s)
    × IsPrepared platform s c 300 prepared.intent
    × (any (has_nonce prepared.intent.nonce) (spent_row ∷ []) ≡ false)
    × (prepared_release_run.1 ≡ (spent_row ∷ []) ++ row ∷ [])
    × (row.request.nonce ≡ prepared.intent.nonce)
    × (row.state ≡ issued)
prepare-IsPrepared_example =
    prepare-IsPrepared platform encoding signing runtime sample_contract (sample_address ∷ [])
      reader 300 nonce_bytes true proposal (spent_row ∷ []) (prepared_release_run.1) prepared
      prepared_lem

intent_read : parse_deployment_intent (of_intent intent) ≡ ok intent
unfolding parse_deployment_intent parse_deployment_nonce parse_expiry parse_identifier
    parse_sha256_digest compare_unix_timestamps parse_unix_timestamp expect_schema
    expect_data_object resolve_version expect_exact_schema
intent_read = refl

abbrev sample_intent_valid : IsValidIntent intent
sample_intent_valid = parse_deployment_intent-IsValidIntent (of_intent intent) intent intent_read

parse_deployment_intent-IsValidIntent_example : IsValidIntent intent
parse_deployment_intent-IsValidIntent_example =
    parse_deployment_intent-IsValidIntent (of_intent intent) intent intent_read

parse_deployment_intent-of_intent_example : parse_deployment_intent (of_intent intent) ≡ ok intent
parse_deployment_intent-of_intent_example =
    parse_deployment_intent-of_intent intent sample_intent_valid

to_number-show_bigint_example : to_number (show_bigint 253402300799) ≡ 253402300799
to_number-show_bigint_example = to_number-show_bigint 253402300799

prepare-get_authorization_status_example :
    get_authorization_status platform runtime sample_contract true prepared none
      (prepared_release_run.1)
    ≡ ok awaiting_ledger
prepare-get_authorization_status_example =
    prepare-get_authorization_status platform encoding signing runtime sample_contract
      (sample_address ∷ []) reader 300 nonce_bytes true proposal (spent_row ∷ [])
      (prepared_release_run.1) prepared prepared_lem

clearance_read : parse_clearance_record (of_clearance clearance) ≡ ok clearance
unfolding parse_clearance_record parse_evaluation_inputs parse_expiry parse_identifier
    parse_sha256_digest compare_unix_timestamps parse_unix_timestamp expect_schema
    expect_data_object resolve_version expect_exact_schema
clearance_read = refl

parse_clearance_record-IsValidClearance_example : IsValidClearance clearance
parse_clearance_record-IsValidClearance_example =
    parse_clearance_record-IsValidClearance (of_clearance clearance) clearance clearance_read

parse_clearance_record-of_clearance_example :
    parse_clearance_record (of_clearance clearance) ≡ ok clearance
parse_clearance_record-of_clearance_example =
    parse_clearance_record-of_clearance clearance
      (parse_clearance_record-IsValidClearance (of_clearance clearance) clearance clearance_read)
