-- ===== src/Chain/Registry/Exact.antt =====
-- What the registry holds for a clearance that the client reads and finds eligible.
use Prim.Native.Nat.{Ordering, compare}
use rovaulta.Chain.Numbers.Decimal.{to_number-show_bigint}
use rovaulta.Domain.Timestamps.Accepts.{parse_unix_timestamp_iff}
use Prim.Native.Nat.{compare}
use rovaulta.Domain.Timestamps.Order.{IsDecimal, compare_unix_timestamps_lem}
use rovaulta.Chain.Registry.Reading.{IsExactReading, read_registry-IsExactReading}
use mathlib.Core.Path.{subst}
use rovaulta.Domain.ReleaseSchemas.{parse_clearance_record}
use rovaulta.Domain.Records.{ClearanceRecord, of_clearance}
use rovaulta.Domain.Bindings.{is_before}
use rovaulta.Chain.Numbers.{show_bigint}
use rovaulta.Domain.Value.{str}
use rovaulta.Domain.Timestamps.{parse_unix_timestamp, to_number}
use rovaulta.Errors.{
  ok, bind_parts, or_throw, other_error, >>-eq-ok, require, release, wrong_chain, reject,
  registry_unavailable, ◌>>=◌, ok-injective, or_throw_passed, require_passed, Result,
  clearance_not_found, clearance_not_clear, clearance_revoked, clearance_expired,
  clearance_binding_mismatch, reject_passed,
}
use rovaulta.Chain.Transport.{
  Encoding, ClearanceTransport, sepolia_chain_id, verdict_clear, clearance_record_to_transport,
}
use rovaulta.Domain.Digests.{Platform}
use rovaulta.Chain.Registry.{
  Encoding, RpcClient, true, ClearanceTransport, ClearanceRegistrySnapshot,
  StoredClearanceTransport, ok, some, sepolia_chain_id, verdict_clear, or_throw, other_error,
  require, release, wrong_chain, reject, registry_unavailable, parse_unix_timestamp, str,
  show_bigint, false, Result, is_before, assert_clearance_snapshot_eligible, read_exact_clearance,
  fail_closed, str_eq, ClearanceRecord, err, clearance_not_found, parse_clearance_record, protocol,
  clearance_not_clear, of_clearance, clearance_revoked, clearance_record_to_transport,
  clearance_expired, clearance_binding_mismatch, agent, application, ℕ,
}
use rovaulta.Prelude.{Str, ◌≡◌, true, eq_of_str_eq, some, ◌==◌, false, str_eq, ◌<◌, ℕ, ltb→lt}

parsed_lem :
    (n : ℕ) (text : Str)
    → parse_unix_timestamp (str (show_bigint n)) ≡ ok text
    → IsDecimal text × (to_number text ≡ n)
parsed_lem n text h =
    let (e, (decimal, bound)) = (parse_unix_timestamp_iff (str (show_bigint n)) text).0 h in
    let same : show_bigint n ≡ text = cc in (decimal, rw same at (to_number-show_bigint n))

-- The order of the texts of two numbers is the order of the numbers.
before_lem :
    (n m : ℕ) (s t : Str)
    → parse_unix_timestamp (str (show_bigint n)) ≡ ok s
    → parse_unix_timestamp (str (show_bigint m)) ≡ ok t
    → is_before s t ≡ true
    → n < m
before_lem n m s t h k before =
    let (a, e) = parsed_lem n s h in
    let (b, f) = parsed_lem m t k in
    let less : elim (compare (to_number s) (to_number t)) [ Ordering.lt ↦ true | _ ↦ false ]
        ≡ true =
      rw (compare_unix_timestamps_lem s t a b, is_before) at before in
    let order : to_number s < to_number t = ltb→lt (to_number s) (to_number t) less in
    rw (e, f) at order

module _ (p : Platform) (encoding : Encoding) (contract : Str) where
  fail_closed_lem {ℓ} : {A : Type ℓ} (m : Result A) {a : A} → fail_closed m ≡ ok a → m ≡ ok a
  fail_closed_lem (ok x) h = h
  fail_closed_lem (err (release c)) h = cc
  fail_closed_lem (err (protocol c)) h = cc
  fail_closed_lem (err (agent c)) h = cc
  fail_closed_lem (err (application c)) h = cc
  fail_closed_lem (err other_error) h = cc

  -- A snapshot of the contract's stored clearance that may still be released.
  pub record IsEligible (snapshot : ClearanceRegistrySnapshot) (stored : StoredClearanceTransport)
      : Type 0 where
    pub of_contract : snapshot.registry ≡ contract
    pub found : snapshot.stored ≡ some stored
    pub unrevoked : stored.revoked ≡ false
    pub expiry : Str
    pub expiry_read :
        parse_unix_timestamp (str (show_bigint stored.bindings.expires_at)) ≡ ok expiry
    pub unexpired : is_before snapshot.block_timestamp expiry ≡ true
    pub exact : snapshot.exact_match ≡ true

  assert_clearance_snapshot_eligible-IsEligible :
      (snapshot result : ClearanceRegistrySnapshot)
      → assert_clearance_snapshot_eligible encoding contract snapshot ≡ ok result
      → (snapshot ≡ result) × (stored : StoredClearanceTransport) × IsEligible snapshot stored
  unfolding assert_clearance_snapshot_eligible
  assert_clearance_snapshot_eligible-IsEligible snapshot result h =
      let (k1, h1) =
        >>-eq-ok (require (snapshot.chain_id == sepolia_chain_id) (release wrong_chain)) _ h in
      let (k2, h2) =
        >>-eq-ok (require (str_eq snapshot.registry contract) (release registry_unavailable)) _
          h1 in
      let (stored, e, h3) =
        bind_parts (or_throw snapshot.stored (release clearance_not_found)) _ h2 in
      let (k3, h4) =
        >>-eq-ok
          (require (str_eq stored.verdict (verdict_clear encoding)) (release clearance_not_clear)) _
          h3 in
      let (k4, h5) = >>-eq-ok (reject stored.revoked (release clearance_revoked)) _ h4 in
      let (expiry, f, h6) =
        bind_parts (parse_unix_timestamp (str (show_bigint stored.bindings.expires_at))) _ h5 in
      let (k5, h7) =
        >>-eq-ok (require (is_before snapshot.block_timestamp expiry) (release clearance_expired)) _
          h6 in
      let (k6, h8) =
        >>-eq-ok (require snapshot.exact_match (release clearance_binding_mismatch)) _ h7 in
      (
        ok-injective h8,
        stored,
        record {
          of_contract = eq_of_str_eq _ _ (require_passed _ _ k2);
          found = or_throw_passed _ _ e;
          unrevoked = reject_passed _ _ k4;
          expiry = expiry;
          expiry_read = f;
          unexpired = require_passed _ _ k5;
          exact = require_passed _ _ k6;
        },
      )

  -- A clearance that the client reads and that passes the test of eligibility is in the contract:
  -- at the latest block of the Sepolia chain the contract holds a CLEAR clearance of the same
  -- digest and bindings, which it calls valid and which is not revoked, and the timestamp of that
  -- block, which the snapshot holds as its text, is less than the clearance's expiry.
  pub read_exact_clearance-IsEligible :
      (client : RpcClient) (input : ClearanceRecord) (snapshot : ClearanceRegistrySnapshot)
      → (read_exact_clearance p encoding contract client input
          >>= assert_clearance_snapshot_eligible encoding contract)
        ≡ ok snapshot
      → (requested : ClearanceTransport) × (stored : StoredClearanceTransport)
        × ((clearance : ClearanceRecord) × (parse_clearance_record (of_clearance input)
              ≡ ok clearance)
            × (clearance_record_to_transport p encoding (of_clearance clearance) ≡ ok requested))
        × (reading : IsExactReading p encoding contract client requested snapshot stored)
        × IsEligible snapshot stored
        × (reading.block.timestamp < stored.bindings.expires_at)
  unfolding read_exact_clearance
  read_exact_clearance-IsEligible client input snapshot h =
      let (read, e, h1) = bind_parts (read_exact_clearance p encoding contract client input) _ h in
      let (same, stored, eligible) =
        assert_clearance_snapshot_eligible-IsEligible read snapshot h1 in
      let (clearance, f, h2) = bind_parts (parse_clearance_record (of_clearance input)) _ e in
      let (requested, g, h3) =
        bind_parts (clearance_record_to_transport p encoding (of_clearance clearance)) _ h2 in
      let exact =
        read_registry-IsExactReading p encoding contract client requested read stored
          (fail_closed_lem _ h3) eligible.exact eligible.found in
      let read_there =
        subst
          (λ (s : ClearanceRegistrySnapshot).
            IsExactReading p encoding contract client requested s stored)
          same exact in
      let there = subst (λ (s : ClearanceRegistrySnapshot). IsEligible s stored) same eligible in
      (
        requested,
        stored,
        (clearance, f, g),
        read_there,
        there,
        before_lem read_there.block.timestamp stored.bindings.expires_at snapshot.block_timestamp
            there.expiry read_there.timestamp_read there.expiry_read there.unexpired,
      )
