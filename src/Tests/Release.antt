-- ===== src/Tests/Release.antt =====
-- A clearance that is prepared, signed and consumed, with functions for the parameters.
pub mod Consume
pub mod Prepare
use rovaulta.Chain.Numbers.Decimal.{to_number-show_bigint}
use rovaulta.Release.Operations.Issued.{IsPrepared, prepare-IsPrepared}
use rovaulta.Domain.ReleaseSchemas.Intent.{
  IsValidIntent, parse_deployment_intent-of_intent, parse_deployment_intent-IsValidIntent,
}
use rovaulta.Release.Operations.Replay.{consume_release-replay}
use rovaulta.Domain.Bindings.{assert_deployment_intent_bindings, create_deployment_intent}
use rovaulta.Release.NonceStore.Update.{IsRecorded}
use rovaulta.Release.Operations.Effects.{
  consume_release_error, prepare_error, consume_release-IsGranted,
}
use rovaulta.Release.Operations.Consumed.{IsIssuedRow, IsGranted}
use rovaulta.Chain.Numbers.{show_bigint}
use rovaulta.Domain.Digests.{
  digest_deployment_intent, digest_frame, digest_clearance, digest_evaluation_inputs,
}
use rovaulta.Release.Signers.{assert_authorized}
use rovaulta.Prelude.Sort.{sort}
use rovaulta.Tests.Records.{intent, clearance}
use rovaulta.Domain.Schemas.{expect_schema, parse_evaluation_inputs, parse_verdict}
use rovaulta.Domain.Timestamps.{
  parse_expiry, compare_unix_timestamps, parse_unix_timestamp, to_number,
}
use rovaulta.Domain.Identifiers.{parse_deployment_nonce, parse_identifier, parse_sha256_digest}
use rovaulta.Tests.{platform, digest, has_returned, returned}
use rovaulta.Domain.ReleaseSchemas.{parse_deployment_intent, parse_clearance_record}
use rovaulta.Domain.Records.{of_intent, of_clearance, ClearanceRecord}
use rovaulta.Release.Operations.{
  ConsumeReleaseRequest, find_issued, consume_release, authorize_row, read_back, check_signature,
  check_after_signing, check_registry, authorize, prepare, prepare_request,
}
use rovaulta.Domain.Value.{Value, str, expect_data_object, resolve_version, expect_exact_schema}
use rovaulta.Release.NonceStore.{Row, load, issued, consume, issue, consumed, has_nonce}
use rovaulta.Chain.Registry.{
  StoredClearanceTransport, ClearanceRegistrySnapshot, assert_clearance_snapshot_eligible,
}
use rovaulta.Release.Service.{
  Runtime, Reader, DeploymentProposal, ReleaseAuthorization, new_nonce, compute_expiry,
  assert_proposal_bindings, PreparedReleaseRequest,
}
use rovaulta.Domain.Canonical.{canonical_serialize, utf8_encode}
use rovaulta.Errors.{
  Result, ok, err, release, nonce_not_found, persistence_unavailable, replay_rejected,
  ReleaseGateErrorCode,
}
use rovaulta.Chain.TypedData.{
  Signing, build_deployment_typed_data, hash_release_signature, assert_canonical_signature,
  recover_deployment_intent_signer, assert_deployment_intent_signature,
}
use rovaulta.Chain.Transport.{Encoding, zero_bytes32, protocol_digest_to_bytes32}
use rovaulta.Prelude.{
  Str, codes, List, some, true, if◌then◌else◌, ℕ, str_eq, false, ◌∷◌, [], ◌≡◌, refl, none, ◌⊎◌, any,
  ◌++◌,
}

abbrev pub sample_address : Str
sample_address = codes "0xA1"

abbrev pub sample_contract : Str
sample_contract = codes "0xC1"

abbrev pub encoding : Encoding
encoding = record { sha256_of_text = λ s. s; string_to_hex = λ s n. s }

-- Every signature of the runs is by the one signer.
abbrev pub signing : Signing
signing = record {
  get_address = λ s. some s;
  hash_typed_data = λ message. message.nonce;
  recover_typed_data_address = λ message s. some sample_address;
  keccak256 = λ s. s;
  is_hex_text = λ s. true;
}

abbrev pub text_or_empty : Result Str → Str
text_or_empty (ok s) = s
text_or_empty (err e) = []

abbrev pub intent_text : Str
intent_text = text_or_empty (canonical_serialize (λ s. true) (of_intent intent))

abbrev pub clearance_text : Str
clearance_text = text_or_empty (canonical_serialize (λ s. true) (of_clearance clearance))

-- A parser that knows the two texts of the runs.
abbrev pub runtime : Runtime
runtime = record {
  parse_json = λ s.
      if str_eq s intent_text
      then some (of_intent intent)
      else if str_eq s clearance_text
      then some (of_clearance clearance)
      else none;
  to_lower_case = λ s. s;
}

abbrev pub sample_stored : StoredClearanceTransport
sample_stored = record {
  clearance_digest = zero_bytes32;
  bindings = record {
    clearance_id_hash = codes "clearance:c1";
    evaluation_id_hash = codes "evaluation:one";
    site_id_hash = codes "site:alpha";
    robot_id_hash = codes "robot:r1";
    robot_build_id_hash = codes "robot-build:b1";
    robot_build_digest = zero_bytes32;
    safety_envelope_id_hash = codes "safety-envelope:e1";
    safety_envelope_commitment = zero_bytes32;
    evaluator_version_hash = codes "evaluator-version:warehouse-rules-v1";
    evaluation_inputs_digest = zero_bytes32;
    issued_at = 2000;
    expires_at = 9000;
  };
  verdict = codes "CLEAR";
  issuer = codes "0xD1";
  revoked = false;
  exists = true;
}

abbrev pub snapshot : ClearanceRegistrySnapshot
snapshot = record {
  chain_id = 11155111;
  registry = sample_contract;
  block_number = 7;
  block_hash = codes "0xB1";
  block_timestamp = codes "3000";
  requested = record {
    clearance_digest = sample_stored.clearance_digest;
    bindings = sample_stored.bindings;
    verdict = sample_stored.verdict;
  };
  stored = some sample_stored;
  exact_match = true;
}

abbrev pub reader : Reader
reader _ = ok snapshot

abbrev pub nonce_bytes : List ℕ
nonce_bytes = 2 ∷ 35 ∷ 69 ∷ 103 ∷ 137 ∷ 171 ∷ 205 ∷ 239 ∷ []

abbrev pub proposal : DeploymentProposal
proposal = record {
  site_id = str (codes "site:alpha");
  robot_id = str (codes "robot:r1");
  robot_build_id = str (codes "robot-build:b1");
  robot_build_digest = str digest;
  clearance = of_clearance clearance;
  signer_address = sample_address;
  account_id = none;
}

abbrev pub stored_row : Row
stored_row = record {
  request = record {
    nonce = intent.nonce;
    account_id = none;
    intent_json = intent_text;
    clearance_json = clearance_text;
    authorized_signer = sample_address;
    protocol_intent_digest = digest;
    typed_data_digest = intent.nonce;
    precheck_block_number = codes "7";
    precheck_block_hash = codes "0xB1";
    precheck_block_timestamp = codes "3000";
  };
  state = issued;
  authorization_json = none;
}

abbrev pub signature : Value
signature = str (
    codes
      "0x0000000000000000000000000000000000000000000000000000000000000000000000000000000000000000000000000000000000000000000000000000000000")

abbrev pub input : ConsumeReleaseRequest
input = record { intent = of_intent intent; signature = signature; account_id = none }

abbrev pub spent_row : Row
spent_row = record { request = stored_row.request; state = consumed; authorization_json = some [] }
