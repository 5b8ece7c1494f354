-- ===== src/Release/Operations/Authorized.antt =====
-- What stands behind an authorization that `consume` returns.
use rovaulta.Domain.Bindings.{is_before}
use rovaulta.Domain.Timestamps.{to_number}
use rovaulta.Chain.Registry.{ClearanceRegistrySnapshot}
use rovaulta.Release.Signers.{assert_authorized}
use rovaulta.Domain.Value.{Value}
use rovaulta.Domain.Records.{DeploymentIntent, ClearanceRecord, of_intent}
use rovaulta.Errors.{
  Result, ok, bind_parts, err, >>-eq-ok, release, require, protocol, reject, other_error,
  signature_mismatch, clearance_invalidated, ok-injective, intent_expired, reject_passed,
  require_passed, agent, application,
}
use rovaulta.Release.Operations.{
  check_signature, check_after_signing, DeploymentIntent, invalidated, Value, assert_authorized,
  ClearanceRegistrySnapshot, check_registry, to_number, is_before,
}
use rovaulta.Release.NonceStore.{StoredReleaseRequest}
use rovaulta.Release.Service.{Runtime, Reader, invalidated}
use rovaulta.Chain.TypedData.{
  Signing, assert_deployment_intent_signature, PreparedLedgerSigningRequest,
  build_deployment_typed_data, recover_deployment_intent_signer,
}
use rovaulta.Chain.Transport.{Encoding}
use rovaulta.Domain.Digests.{Platform}
use rovaulta.Prelude.{Str, List, ◌≡◌, ◌≤◌, str_eq, ltb, true, ap, ◌∙◌, eq_of_str_eq, sym, arith}

module _ (p : Platform) (encoding : Encoding) (signing : Signing) (runtime : Runtime)
    (contract : Str) (signers : List Str) where
  -- The signature on the request that was issued is by its signer, who is authorized now.
  pub record IsSigned (stored : StoredReleaseRequest) (intent : DeploymentIntent)
      (signature : Value) (prepared : PreparedLedgerSigningRequest) (recovered : Str) : Type 0 where
    pub signer : Str
    pub allowed : Str
    pub signer_allowed : assert_authorized signing signers stored.authorized_signer ≡ ok signer
    pub rebuilt :
        build_deployment_typed_data p signing contract (of_intent intent) signer ≡ ok prepared
    pub same_intent_digest : prepared.protocol_intent_digest ≡ stored.protocol_intent_digest
    pub same_digest : prepared.typed_data_digest ≡ stored.typed_data_digest
    pub signed_by : recover_deployment_intent_signer signing prepared signature ≡ ok recovered
    pub is_signer : recovered ≡ prepared.authorized_signer
    pub recovered_allowed : assert_authorized signing signers recovered ≡ ok allowed

  signature_lem :
      (request : PreparedLedgerSigningRequest) (input : Value) (s : Str)
      → assert_deployment_intent_signature signing request input ≡ ok s
      → (recover_deployment_intent_signer signing request input ≡ ok s)
        × (s ≡ request.authorized_signer)
  unfolding assert_deployment_intent_signature
  signature_lem request input s h =
      let (r, e, h1) = bind_parts (recover_deployment_intent_signer signing request input) _ h in
      let (k, h2) =
        >>-eq-ok (require (str_eq r request.authorized_signer) (release signature_mismatch)) _ h1 in
      let same : r ≡ s = ok-injective h2 in
      (e ∙ h2, sym same ∙ eq_of_str_eq r request.authorized_signer (require_passed _ _ k))

  pub check_signature-IsSigned :
      (stored : StoredReleaseRequest) (intent : DeploymentIntent) (signature : Value)
      (prepared : PreparedLedgerSigningRequest) (recovered : Str)
      → check_signature p encoding signing runtime contract signers stored intent signature
        ≡ ok (prepared, recovered)
      → IsSigned stored intent signature prepared recovered
  unfolding check_signature
  check_signature-IsSigned stored intent signature prepared recovered h =
      let (signer, e, h1) =
        bind_parts (assert_authorized signing signers stored.authorized_signer) _ h in
      let (request, f, h2) =
        bind_parts (build_deployment_typed_data p signing contract (of_intent intent) signer) _
          h1 in
      let (k, h3) =
        >>-eq-ok
          (require (str_eq request.protocol_intent_digest stored.protocol_intent_digest)
            (release signature_mismatch))
          _ h2 in
      let (l, h4) =
        >>-eq-ok
          (require (str_eq request.typed_data_digest stored.typed_data_digest)
            (release signature_mismatch))
          _ h3 in
      let (r, g, h5) =
        bind_parts (assert_deployment_intent_signature signing request signature) _ h4 in
      let (allowed, i, h6) = bind_parts (assert_authorized signing signers r) _ h5 in
      let (by, is) = signature_lem request signature r g in
      let same : request ≡ prepared = ap (λ x. x.0) (ok-injective h6) in
      let same_r : r ≡ recovered = ap (λ x. x.1) (ok-injective h6) in
      let found : IsSigned stored intent signature request r = record {
        signer = signer;
        allowed = allowed;
        signer_allowed = e;
        rebuilt = f;
        same_intent_digest = eq_of_str_eq _ _ (require_passed _ _ k);
        same_digest = eq_of_str_eq _ _ (require_passed _ _ l);
        signed_by = by;
        is_signer = is;
        recovered_allowed = i;
      } in
      rw (same, same_r) at found

  -- The clearance was eligible when it was read again, on a chain that had not gone back, before
  -- the intent expired.
  pub record IsLive (reader : Reader) (stored : StoredReleaseRequest) (intent : DeploymentIntent)
      (clearance : ClearanceRecord) (postcheck : ClearanceRegistrySnapshot) : Type 0 where
    pub eligible :
        check_registry p encoding signing runtime contract signers reader clearance ≡ ok postcheck
    pub not_behind : to_number stored.precheck_block_number ≤ postcheck.block_number
    pub unexpired : is_before postcheck.block_timestamp intent.expires_at ≡ true

  invalidated_lem {ℓ} : {A : Type ℓ} (m : Result A) {a : A} → invalidated m ≡ ok a → m ≡ ok a
  invalidated_lem (ok x) h = h
  invalidated_lem (err (release c)) h = cc
  invalidated_lem (err (protocol c)) h = cc
  invalidated_lem (err (agent c)) h = cc
  invalidated_lem (err (application c)) h = cc
  invalidated_lem (err other_error) h = cc

  pub check_after_signing-IsLive :
      (reader : Reader) (stored : StoredReleaseRequest) (intent : DeploymentIntent)
      (clearance : ClearanceRecord) (postcheck : ClearanceRegistrySnapshot)
      → check_after_signing p encoding signing runtime contract signers reader stored intent
          clearance
        ≡ ok postcheck
      → IsLive reader stored intent clearance postcheck
  unfolding check_after_signing
  check_after_signing-IsLive reader stored intent clearance postcheck h =
      let (s, e, h1) =
        bind_parts
          (invalidated
            (check_registry p encoding signing runtime contract signers reader clearance))
          _ h in
      let (k, h2) =
        >>-eq-ok
          (reject (ltb s.block_number (to_number stored.precheck_block_number))
            (release clearance_invalidated))
          _ h1 in
      let (l, h3) =
        >>-eq-ok (require (is_before s.block_timestamp intent.expires_at) (release intent_expired))
          _ h2 in
      let found : IsLive reader stored intent clearance s = record {
        eligible = invalidated_lem _ e;
        not_behind =
            let q =
              reject_passed (ltb s.block_number (to_number stored.precheck_block_number)) _ k in
            ground arith;
        unexpired = require_passed _ _ l;
      } in
      rw (ok-injective h3) at found
