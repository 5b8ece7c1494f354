-- ===== src/Tests/Registry.antt =====
-- A clearance that a client reads from the registry.
use rovaulta.Prelude.Sort.{sort}
use rovaulta.Domain.Value.{expect_data_object, resolve_version, expect_exact_schema}
use rovaulta.Domain.Identifiers.{parse_identifier, parse_sha256_digest}
use rovaulta.Domain.Timestamps.{parse_expiry, compare_unix_timestamps, parse_unix_timestamp}
use rovaulta.Chain.Numbers.{show_bigint}
use rovaulta.Domain.Canonical.{utf8_encode, canonical_serialize}
use rovaulta.Chain.Registry.Exact.{IsEligible, read_exact_clearance-IsEligible}
use rovaulta.Chain.Registry.Reading.{IsExactReading}
use rovaulta.Domain.Schemas.{parse_evaluation_inputs, parse_verdict, expect_schema}
use rovaulta.Domain.ReleaseSchemas.{parse_clearance_record}
use rovaulta.Tests.{returned, has_returned}
use rovaulta.Chain.Transport.{
  ClearanceTransport, clearance_record_to_transport, protocol_digest_to_bytes32,
}
use rovaulta.Errors.{Result, ◌>>=◌, ok}
use rovaulta.Domain.Digests.{Platform, digest_clearance, digest_evaluation_inputs, digest_frame}
use rovaulta.Chain.Registry.{
  StoredClearanceTransport, RpcClient, read_exact_clearance, ClearanceRegistrySnapshot,
  read_registry, assert_clearance_snapshot_eligible, same_bindings,
}
use rovaulta.Domain.Records.{ClearanceRecord, of_clearance}
use rovaulta.Prelude.{List, Str, ℕ, codes, true, some, false, ◌∷◌, [], ◌≡◌, refl, ◌<◌}
use rovaulta.Tests.Records.{clearance}
use rovaulta.Tests.Release.{encoding, sample_contract, sample_stored}

-- A digest that is not the zero one.
abbrev one_bytes : List ℕ
one_bytes =
    17 ∷ 17 ∷ 17 ∷ 17 ∷ 17 ∷ 17 ∷ 17 ∷ 17 ∷ 17 ∷ 17 ∷ 17 ∷ 17 ∷ 17 ∷ 17 ∷ 17 ∷ 17 ∷ 17 ∷ 17 ∷ 17
    ∷ 17 ∷ 17 ∷ 17 ∷ 17 ∷ 17 ∷ 17 ∷ 17 ∷ 17 ∷ 17 ∷ 17 ∷ 17 ∷ 17 ∷ 17 ∷ []

abbrev one_digest : Str
one_digest = codes "0x1111111111111111111111111111111111111111111111111111111111111111"

abbrev one_clearance : ClearanceRecord
one_clearance = record {
  schema_version = clearance.schema_version;
  clearance_id = clearance.clearance_id;
  evaluation_id = clearance.evaluation_id;
  inputs = clearance.inputs;
  evaluation_inputs_digest =
      codes "sha256:1111111111111111111111111111111111111111111111111111111111111111";
  issued_at = clearance.issued_at;
  expires_at = clearance.expires_at;
}

abbrev one_stored : StoredClearanceTransport
one_stored = record {
  clearance_digest = one_digest;
  bindings = record {
    clearance_id_hash = sample_stored.bindings.clearance_id_hash;
    evaluation_id_hash = sample_stored.bindings.evaluation_id_hash;
    site_id_hash = sample_stored.bindings.site_id_hash;
    robot_id_hash = sample_stored.bindings.robot_id_hash;
    robot_build_id_hash = sample_stored.bindings.robot_build_id_hash;
    robot_build_digest = sample_stored.bindings.robot_build_digest;
    safety_envelope_id_hash = sample_stored.bindings.safety_envelope_id_hash;
    safety_envelope_commitment = sample_stored.bindings.safety_envelope_commitment;
    evaluator_version_hash = sample_stored.bindings.evaluator_version_hash;
    evaluation_inputs_digest = one_digest;
    issued_at = 2000;
    expires_at = 9000;
  };
  verdict = codes "CLEAR";
  issuer = codes "0xD1";
  revoked = false;
  exists = true;
}

abbrev one_platform : Platform
one_platform = record { is_nfc = λ s. true; sha256 = λ bytes. one_bytes }

-- A client of a chain that holds the one clearance.
abbrev client : RpcClient
client = record {
  get_chain_id = some 11155111;
  get_block_number = some 7;
  get_block = λ n. some (record { hash = codes "0xB1"; timestamp = 3000 });
  get_code = λ a n. some (some (codes "0x60"));
  clearance_digest_by_id_hash = λ a id n. some one_digest;
  get_clearance = λ a d n. some one_stored;
  is_clearance_valid_for = λ a d b n. some true;
}

abbrev reading : Result ClearanceRegistrySnapshot
reading =
    read_exact_clearance one_platform encoding sample_contract client one_clearance
    >>= assert_clearance_snapshot_eligible encoding sample_contract

reading_returns : has_returned reading ≡ true
unfolding read_exact_clearance read_registry same_bindings clearance_record_to_transport
    assert_clearance_snapshot_eligible parse_clearance_record parse_evaluation_inputs parse_verdict
    digest_clearance digest_evaluation_inputs digest_frame utf8_encode protocol_digest_to_bytes32
    show_bigint parse_expiry parse_identifier parse_sha256_digest compare_unix_timestamps
    parse_unix_timestamp canonical_serialize expect_schema expect_data_object resolve_version
    expect_exact_schema sort
reading_returns = refl

abbrev snapshot_read : ClearanceRegistrySnapshot
snapshot_read = (returned reading reading_returns).0

read_exact_clearance-IsEligible_example :
    (requested : ClearanceTransport) × (stored : StoredClearanceTransport) × ((c : ClearanceRecord)
      × (parse_clearance_record (of_clearance one_clearance) ≡ ok c)
      × (clearance_record_to_transport one_platform encoding (of_clearance c) ≡ ok requested))
    × (found : IsExactReading one_platform encoding sample_contract client requested snapshot_read
        stored)
    × IsEligible one_platform encoding sample_contract snapshot_read stored
    × (found.block.timestamp < stored.bindings.expires_at)
read_exact_clearance-IsEligible_example =
    read_exact_clearance-IsEligible one_platform encoding sample_contract client one_clearance
      snapshot_read (returned reading reading_returns).1
