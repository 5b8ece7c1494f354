-- ===== src/Release/Operations/Issued.antt =====
-- The intent that `prepare` makes and the row that it stores.
use rovaulta.Domain.ReleaseSchemas.Clearance.{
  parse_clearance_record-IsValidClearance, parse_clearance_record-of_clearance,
}
use rovaulta.Domain.Value.{Value}
use rovaulta.Domain.Bindings.Intent.{IsBoundTo}
use rovaulta.Release.Operations.Expiry.{
  compute_expiry-bounds, create_deployment_intent-same, issue_ok,
}
use mathlib.Core.Path.{subst}
use rovaulta.Domain.Canonical.{canonical_serialize}
use rovaulta.Release.Signers.{assert_authorized}
use rovaulta.Release.NonceStore.{StoredReleaseRequest, issue, Row, has_nonce, issued}
use rovaulta.Release.Operations.{
  prepare_request, Reader, DeploymentProposal, StoredReleaseRequest, PreparedReleaseRequest,
  check_registry, assert_proposal_bindings, assert_authorized, new_nonce, canonical_serialize,
  prepare, stored_request, prepared_release, Value,
}
use rovaulta.Domain.ReleaseSchemas.{parse_clearance_record, parse_deployment_intent}
use rovaulta.Chain.TypedData.{Signing, build_deployment_typed_data}
use rovaulta.Chain.Transport.{Encoding}
use rovaulta.Domain.Digests.{Platform}
use rovaulta.Domain.Bindings.{create_deployment_intent}
use rovaulta.Domain.Timestamps.{to_number}
use rovaulta.Errors.{ok, >>-eq-ok, bind_parts, ok-injective, Result-cases, err, ◌>>◌}
use rovaulta.Domain.Records.{ClearanceRecord, DeploymentIntent, of_clearance, of_intent}
use rovaulta.Chain.Registry.{ClearanceRegistrySnapshot}
use rovaulta.Release.Service.{
  compute_expiry, Runtime, Reader, DeploymentProposal, PreparedReleaseRequest,
  assert_proposal_bindings, new_nonce,
}
use rovaulta.Prelude.{
  Str, ℕ, ◌≡◌, ◌<◌, ◌≤◌, ◌+◌, sym, ◌∙◌, ap, false, inl, inr, List, refl, Bool, any, ◌++◌, ◌∷◌, none,
  [],
}

-- The intent is issued at the time of the block that was read, lives no longer than the time to
-- live and the clearance, and is bound to the clearance.
pub record IsPrepared (p : Platform) (snapshot : ClearanceRegistrySnapshot)
    (clearance : ClearanceRecord) (ttl : ℕ) (intent : DeploymentIntent) : Type 0 where
  pub issued : intent.issued_at ≡ snapshot.block_timestamp
  pub unexpired : to_number snapshot.block_timestamp < to_number intent.expires_at
  pub lives : to_number intent.expires_at ≤ to_number snapshot.block_timestamp + ttl
  pub within : to_number intent.expires_at ≤ to_number clearance.expires_at
  pub bound : IsBoundTo p intent clearance

-- The request that is stored says what the prepared one says.
pub record IsStored (p : Platform) (proposal : DeploymentProposal) (request : StoredReleaseRequest)
    (prepared : PreparedReleaseRequest) : Type 0 where
  pub read : parse_deployment_intent (of_intent prepared.intent) ≡ ok prepared.intent
  pub nonce : request.nonce ≡ prepared.intent.nonce
  pub account : request.account_id ≡ proposal.account_id
  pub json : canonical_serialize p.is_nfc (of_intent prepared.intent) ≡ ok request.intent_json
  pub intent_digest : request.protocol_intent_digest ≡ prepared.protocol_intent_digest
  pub typed_digest : request.typed_data_digest ≡ prepared.typed_data_digest
  pub signer : request.authorized_signer ≡ prepared.authorized_signer

abbrev pub issued_row : StoredReleaseRequest → Row
issued_row request = record { request = request; state = issued; authorization_json = none }

prepared_lem :
    (p : Platform) (snapshot : ClearanceRegistrySnapshot) (clearance : ClearanceRecord) (ttl : ℕ)
    (expires_at : Str) (intent : DeploymentIntent)
    → compute_expiry snapshot clearance ttl ≡ ok expires_at
    → intent.issued_at ≡ snapshot.block_timestamp
    → intent.expires_at ≡ expires_at
    → IsBoundTo p intent clearance
    → IsPrepared p snapshot clearance ttl intent
prepared_lem p snapshot clearance ttl expires_at intent h a b bound =
    let (unexpired, lives, within) = compute_expiry-bounds snapshot clearance ttl expires_at h in
    record {
      issued = a;
      unexpired = rw (sym b) at unexpired;
      lives = rw (sym b) at lives;
      within = rw (sym b) at within;
      bound = bound;
    }

-- A clearance that was parsed is the one that an intent made from it is bound to.
bound_lem :
    (p : Platform) (v : Value) (clearance c d : ClearanceRecord) (intent : DeploymentIntent)
    → parse_clearance_record v ≡ ok clearance
    → parse_clearance_record (of_clearance clearance) ≡ ok c
    → parse_clearance_record (of_clearance c) ≡ ok d
    → IsBoundTo p intent d
    → IsBoundTo p intent clearance
bound_lem p v clearance c d intent h k l bound =
    let valid = parse_clearance_record-IsValidClearance v clearance h in
    let again = parse_clearance_record-of_clearance clearance valid in
    let same : clearance ≡ c = ok-injective (sym again ∙ k) in
    let same_d : clearance ≡ d = ok-injective (
      sym again ∙ ap (λ (x : ClearanceRecord). parse_clearance_record (of_clearance x)) same ∙ l) in
    subst (λ (x : ClearanceRecord). IsBoundTo p intent x) (sym same_d) bound

module _ (p : Platform) (encoding : Encoding) (signing : Signing) (runtime : Runtime)
    (contract : Str) (signers : List Str) where
  prepare_request-IsPrepared :
      (reader : Reader) (ttl : ℕ) (random_bytes : List ℕ) (proposal : DeploymentProposal)
      (request : StoredReleaseRequest) (prepared : PreparedReleaseRequest)
      → prepare_request p encoding signing runtime contract signers reader ttl random_bytes proposal
        ≡ ok (request, prepared)
      → (clearance : ClearanceRecord) × (snapshot : ClearanceRegistrySnapshot)
        × (parse_clearance_record proposal.clearance ≡ ok clearance)
        × (check_registry p encoding signing runtime contract signers reader clearance
            ≡ ok snapshot)
        × (IsPrepared p snapshot clearance ttl prepared.intent
            × IsStored p proposal request prepared)
  unfolding prepare_request
  prepare_request-IsPrepared reader ttl random_bytes proposal request prepared h =
      let (clearance, e1, h1) = bind_parts (parse_clearance_record proposal.clearance) _ h in
      let (k, h2) = >>-eq-ok (assert_proposal_bindings proposal clearance) _ h1 in
      let (signer, e2, h3) =
        bind_parts (assert_authorized signing signers proposal.signer_address) _ h2 in
      let (snapshot, e3, h4) =
        bind_parts (check_registry p encoding signing runtime contract signers reader clearance) _
          h3 in
      let (nonce, e4, h5) = bind_parts (new_nonce random_bytes) _ h4 in
      let (expires_at, e5, h6) = bind_parts (compute_expiry snapshot clearance ttl) _ h5 in
      let (intent, e6, h7) =
        bind_parts
          (create_deployment_intent p (of_clearance clearance) (record {
            nonce = nonce;
            issued_at = snapshot.block_timestamp;
            expires_at = expires_at;
          }))
          _ h6 in
      let (typed, e7, h8) =
        bind_parts (build_deployment_typed_data p signing contract (of_intent intent) signer) _
          h7 in
      let (intent_json, e8, h9) =
        bind_parts (canonical_serialize p.is_nfc (of_intent intent)) _ h8 in
      let (clearance_json, e9, h10) =
        bind_parts (canonical_serialize p.is_nfc (of_clearance clearance)) _ h9 in
      let (c, f, bound, n, a, b, again) =
        create_deployment_intent-same p (of_clearance clearance) _ intent e6 in
      let (d, g, bound_d) = bound in
      let bound_here = bound_lem p proposal.clearance clearance c d intent e1 f g bound_d in
      let found = prepared_lem p snapshot clearance ttl expires_at intent e5 a b bound_here in
      let stored : IsStored p proposal
          (stored_request proposal intent snapshot typed signer intent_json clearance_json)
          (prepared_release intent snapshot typed signer) =
        record {
          read = again;
          nonce = refl;
          account = refl;
          json = e8;
          intent_digest = refl;
          typed_digest = refl;
          signer = refl;
        } in
      (
        clearance,
        snapshot,
        e1,
        e3,
        subst
            (λ (q : StoredReleaseRequest × PreparedReleaseRequest).
              IsPrepared p snapshot clearance ttl (q.1.intent) × IsStored p proposal (q.0) (q.1))
            (ok-injective h10) (found, stored),
      )

  pub prepare_parts :
      (reader : Reader) (ttl : ℕ) (random_bytes : List ℕ) (available : Bool)
      (proposal : DeploymentProposal) (rows rest : List Row) (prepared : PreparedReleaseRequest)
      → prepare p encoding signing runtime contract signers reader ttl random_bytes available
          proposal rows
        ≡ (ok prepared, rest)
      → (request : StoredReleaseRequest) × (clearance : ClearanceRecord)
        × (snapshot : ClearanceRegistrySnapshot) × (parse_clearance_record proposal.clearance
            ≡ ok clearance)
        × (check_registry p encoding signing runtime contract signers reader clearance
            ≡ ok snapshot)
        × IsPrepared p snapshot clearance ttl prepared.intent
        × IsStored p proposal request prepared
        × (any (has_nonce request.nonce) rows ≡ false)
        × (rest ≡ rows ++ issued_row request ∷ [])
  unfolding prepare
  prepare_parts reader ttl random_bytes available proposal rows rest prepared h =
      elim (Result-cases (
        prepare_request p encoding signing runtime contract signers reader ttl random_bytes
          proposal)) [
            | inr (y, e) ↦
                absurd (let q : err y ≡ ok prepared = ap (λ x. x.0) (rw (prepare, e) at h) in cc)
            | inl ((request, made), e) ↦
                let c = issue available request rows in
                let g : (c.0 >> ok made, c.1) ≡ (ok prepared, rest) = rw (prepare, e) at h in
                let (done, same) = >>-eq-ok (c.0) (ok made) (ap (λ x. x.0) g) in
                let (fresh, added) = issue_ok available request rows done in
                let (clearance, snapshot, e1, e2, found) =
                  prepare_request-IsPrepared reader ttl random_bytes proposal request made e in
                let here : IsPrepared p snapshot clearance ttl prepared.intent
                    × IsStored p proposal request prepared =
                  subst
                    (λ (q : PreparedReleaseRequest).
                      IsPrepared p snapshot clearance ttl q.intent × IsStored p proposal request q)
                    (ok-injective same) found in
                (
                  request,
                  clearance,
                  snapshot,
                  e1,
                  e2,
                  here.0,
                  here.1,
                  fresh,
                  sym (ap (λ x. x.1) g) ∙ added,
                )
          ]

  -- A call of `prepare` that returns: the proposal's clearance was read and found eligible; the
  -- intent is bound to that clearance, is issued at the time of the block of that reading, expires
  -- later than that, at most the time to live later, and not after the clearance; its nonce was in
  -- no row, and one issued row with this nonce has been added at the end of the table.
  pub prepare-IsPrepared :
      (reader : Reader) (ttl : ℕ) (random_bytes : List ℕ) (available : Bool)
      (proposal : DeploymentProposal) (rows rest : List Row) (prepared : PreparedReleaseRequest)
      → prepare p encoding signing runtime contract signers reader ttl random_bytes available
          proposal rows
        ≡ (ok prepared, rest)
      → (clearance : ClearanceRecord) × (snapshot : ClearanceRegistrySnapshot) × (row : Row)
        × (parse_clearance_record proposal.clearance ≡ ok clearance)
        × (check_registry p encoding signing runtime contract signers reader clearance
            ≡ ok snapshot)
        × IsPrepared p snapshot clearance ttl prepared.intent
        × (any (has_nonce prepared.intent.nonce) rows ≡ false)
        × (rest ≡ rows ++ row ∷ [])
        × (row.request.nonce ≡ prepared.intent.nonce)
        × (row.state ≡ issued)
  prepare-IsPrepared reader ttl random_bytes available proposal rows rest prepared h =
      let (request, clearance, snapshot, e1, e2, made, stored, fresh, added) =
        prepare_parts reader ttl random_bytes available proposal rows rest prepared h in
      (
        clearance,
        snapshot,
        issued_row request,
        e1,
        e2,
        made,
        rw stored.nonce at fresh,
        added,
        stored.nonce,
        refl,
      )
