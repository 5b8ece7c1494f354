-- ===== src/Release/Operations/Consumed.antt =====
-- `consume` as a whole: what an authorization rests on, and what the store holds afterwards.
use rovaulta.Domain.Value.{Value}
use mathlib.Core.Path.{subst}
use rovaulta.Release.Operations.Authorized.{
  IsSigned, IsLive, check_signature-IsSigned, check_after_signing-IsLive,
}
use rovaulta.Domain.Canonical.{canonical_serialize}
use rovaulta.Chain.Registry.{ClearanceRegistrySnapshot}
use rovaulta.Domain.ReleaseSchemas.{parse_deployment_intent}
use rovaulta.Errors.{
  ok, bind_parts, >>-eq-ok, require, release, replay_rejected, signature_mismatch, require_passed,
  ok-injective,
}
use rovaulta.Domain.Records.{DeploymentIntent, ClearanceRecord, of_intent}
use rovaulta.Release.Operations.{
  Reader, ConsumeReleaseRequest, ReleaseAuthorization, DeploymentIntent, ok,
  parse_deployment_intent, ClearanceRegistrySnapshot, canonical_serialize, read_back,
  of_authorization, check_signature, check_after_signing, authorization_of, find_issued, Value,
  authorize_row,
}
use rovaulta.Release.NonceStore.{
  RequestState, is_issued, Row, issued, consumed, load, StoredReleaseRequest,
}
use rovaulta.Release.Service.{Runtime, Reader, ReleaseAuthorization, of_authorization}
use rovaulta.Chain.TypedData.{Signing, PreparedLedgerSigningRequest, hash_release_signature}
use rovaulta.Chain.Transport.{Encoding}
use rovaulta.Domain.Digests.{Platform}
use rovaulta.Prelude.{Str, List, Bool, ◌≡◌, true, refl, str_eq, ◌∙◌, ap, eq_of_str_eq}

module _ (p : Platform) (encoding : Encoding) (signing : Signing) (runtime : Runtime)
    (contract : Str) (signers : List Str) where
  -- The row of an input was issued for exactly the intent that is supplied, and to the account.
  pub record IsIssuedRow (loads : Bool) (input : ConsumeReleaseRequest) (rows : List Row)
      (row : Row) : Type 0 where
    pub supplied : DeploymentIntent
    pub supplied_read : parse_deployment_intent input.intent ≡ ok supplied
    pub loaded : load loads supplied.nonce input.account_id rows ≡ ok row
    pub was_issued : row.state ≡ issued
    pub same_text : canonical_serialize p.is_nfc (of_intent supplied) ≡ ok row.request.intent_json

  issued_lem : (s : RequestState) → is_issued s ≡ true → s ≡ issued
  issued_lem issued h = refl
  issued_lem consumed h = cc

  pub find_issued-IsIssuedRow :
      (loads : Bool) (input : ConsumeReleaseRequest) (rows : List Row) (row : Row)
      → find_issued p encoding signing runtime contract signers loads input rows ≡ ok row
      → IsIssuedRow loads input rows row
  unfolding find_issued
  find_issued-IsIssuedRow loads input rows row h =
      let (supplied, e1, h1) = bind_parts (parse_deployment_intent input.intent) _ h in
      let (r, e2, h2) = bind_parts (load loads supplied.nonce input.account_id rows) _ h1 in
      let (e3, h3) = >>-eq-ok (require (is_issued r.state) (release replay_rejected)) _ h2 in
      let (json, e4, h4) = bind_parts (canonical_serialize p.is_nfc (of_intent supplied)) _ h3 in
      let (e5, h5) =
        >>-eq-ok (require (str_eq json r.request.intent_json) (release signature_mismatch)) _ h4 in
      let found : IsIssuedRow loads input rows r = record {
        supplied = supplied;
        supplied_read = e1;
        loaded = e2;
        was_issued = issued_lem _ (require_passed _ _ e3);
        same_text = e4 ∙ ap ok (eq_of_str_eq json r.request.intent_json (require_passed _ _ e5));
      } in
      rw (ok-injective h5) at found

  -- The stored intent, whose request was signed by an authorized signer, with a clearance that was
  -- still eligible, and the text of the authorization.
  pub record IsGranted (reader : Reader) (signature : Value) (stored : StoredReleaseRequest)
      (a : ReleaseAuthorization) (text : Str) : Type 0 where
    pub clearance : ClearanceRecord
    pub prepared : PreparedLedgerSigningRequest
    pub postcheck : ClearanceRegistrySnapshot
    pub stored_read :
        read_back p encoding signing runtime contract signers stored ≡ ok (a.intent, clearance)
    pub is_signed :
        IsSigned p encoding signing runtime contract signers stored a.intent signature prepared
          a.recovered_signer
    pub is_live :
        IsLive p encoding signing runtime contract signers reader stored a.intent clearance
          postcheck
    pub authorized_at_read : a.authorized_at ≡ postcheck.block_timestamp
    pub written : canonical_serialize p.is_nfc (of_authorization a) ≡ ok text

  granted :
      (reader : Reader) (signature : Value) (stored : StoredReleaseRequest)
      (found : ReleaseAuthorization × Str) (intent : DeploymentIntent) (clearance : ClearanceRecord)
      (prepared : PreparedLedgerSigningRequest) (recovered : Str)
      (snapshot : ClearanceRegistrySnapshot) (hash t : Str)
      → read_back p encoding signing runtime contract signers stored ≡ ok (intent, clearance)
      → check_signature p encoding signing runtime contract signers stored intent signature
        ≡ ok (prepared, recovered)
      → check_after_signing p encoding signing runtime contract signers reader stored intent
          clearance
        ≡ ok snapshot
      → canonical_serialize p.is_nfc (
          of_authorization (
            authorization_of p encoding signing runtime contract signers stored intent prepared
              recovered snapshot hash))
        ≡ ok t
      → (
        authorization_of p encoding signing runtime contract signers stored intent prepared
            recovered snapshot hash,
        t,
      )
        ≡ found
      → IsGranted reader signature stored (found.0) (found.1)
  granted reader signature stored found intent clearance prepared recovered snapshot hash t e6 e7 e8
        e10 same =
      let b =
        authorization_of p encoding signing runtime contract signers stored intent prepared
          recovered snapshot hash in
      let all_checked : IsGranted reader signature stored b t = record {
        clearance = clearance;
        prepared = prepared;
        postcheck = snapshot;
        stored_read = e6;
        is_signed =
            check_signature-IsSigned p encoding signing runtime contract signers stored intent
              signature prepared recovered e7;
        is_live =
            check_after_signing-IsLive p encoding signing runtime contract signers reader stored
              intent clearance snapshot e8;
        authorized_at_read = refl;
        written = e10;
      } in
      subst (λ (q : ReleaseAuthorization × Str). IsGranted reader signature stored (q.0) (q.1)) same
        all_checked

  pub authorize_row-IsGranted :
      (reader : Reader) (signature : Value) (stored : StoredReleaseRequest)
      (found : ReleaseAuthorization × Str)
      → authorize_row p encoding signing runtime contract signers reader signature stored ≡ ok found
      → IsGranted reader signature stored (found.0) (found.1)
  unfolding authorize_row
  authorize_row-IsGranted reader signature stored found h =
      let ((intent, clearance), e6, h6) =
        bind_parts (read_back p encoding signing runtime contract signers stored) _ h in
      let ((prepared, recovered), e7, h7) =
        bind_parts
          (check_signature p encoding signing runtime contract signers stored intent signature) _
          h6 in
      let (snapshot, e8, h8) =
        bind_parts
          (check_after_signing p encoding signing runtime contract signers reader stored intent
            clearance)
          _ h7 in
      let (hash, e9, h9) = bind_parts (hash_release_signature signing signature) _ h8 in
      let b =
        authorization_of p encoding signing runtime contract signers stored intent prepared
          recovered snapshot hash in
      let (t, e10, h10) = bind_parts (canonical_serialize p.is_nfc (of_authorization b)) _ h9 in
      granted reader signature stored found intent clearance prepared recovered snapshot hash t e6
        e7 e8 e10 (ok-injective h10)
