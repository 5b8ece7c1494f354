-- ===== src/Release/Operations/Answered.antt =====
-- What `getAuthorizationStatus` cannot say of a request that has been consumed.
use rovaulta.Release.NonceStore.{issued, consumed}
use rovaulta.Release.Operations.Replay.{load_recorded}
use rovaulta.Domain.Canonical.{canonical_serialize}
use rovaulta.Release.Operations.Effects.{consume_release-IsGranted}
use rovaulta.Errors.{
  ok, bind_parts, >>-eq-ok, require, release, signature_mismatch, ok-injective, err,
  persistence_unavailable, fail_release, ◌>>=◌,
}
use rovaulta.Release.NonceStore.Update.{IsKeyed, IsRecorded}
use rovaulta.Domain.ReleaseSchemas.{parse_deployment_intent}
use rovaulta.Release.Operations.{
  ConsumeReleaseRequest, parse_deployment_intent, ReleaseAuthorization, ok, consume_release,
  canonical_serialize,
}
use rovaulta.Domain.Records.{DeploymentIntent, of_intent}
use rovaulta.Chain.TypedData.{Signing}
use rovaulta.Release.Status.{
  get_authorization_status, awaiting_ledger, parse_stored_authorization, authorized,
}
use rovaulta.Release.NonceStore.{Row, load, consumed}
use rovaulta.Chain.Transport.{Encoding}
use rovaulta.Release.Service.{Runtime, PreparedReleaseRequest, Reader, ReleaseAuthorization}
use rovaulta.Domain.Digests.{Platform}
use rovaulta.Prelude.{
  Str, List, ◌≡◌, Bool, Option, ap, sym, ◌∙◌, inl, inr, false, true, none, some, Option-cases,
}

module _ (p : Platform) (runtime : Runtime) (contract : Str) where
  -- The end of `getAuthorizationStatus`, on a consumed row.
  consumed_status :
      (row : Row) (prepared : PreparedReleaseRequest)
      → row.state ≡ consumed
      → (elim row.state [
        | issued ↦ elim row.authorization_json [
          | none ↦ ok awaiting_ledger
          | some text ↦ fail_release persistence_unavailable
        ]
        | consumed ↦ elim row.authorization_json [
          | none ↦ fail_release persistence_unavailable
          | some text ↦
              parse_stored_authorization p runtime contract text prepared
                row.request.authorized_signer
              >>= λ found. ok (authorized found)
        ]
      ])
        ≡ ok awaiting_ledger
      → ⊥
  consumed_status row prepared c h = elim (Option-cases row.authorization_json) [
    | inl e ↦
        let q : fail_release persistence_unavailable ≡ ok awaiting_ledger = rw (c, e) at h in cc
    | inr (text, e) ↦
        let (found, f, h1) =
          bind_parts
            (parse_stored_authorization p runtime contract text prepared
              row.request.authorized_signer)
            (λ a. ok (authorized a)) (rw (c, e) at h) in
        cc
  ]

  recorded_status :
      (available : Bool) (prepared : PreparedReleaseRequest) (account : Option Str)
      (rows : List Row) (intent : DeploymentIntent) (n a : Str)
      → parse_deployment_intent (of_intent prepared.intent) ≡ ok intent
      → intent.nonce ≡ n
      → IsRecorded n a rows
      → get_authorization_status p runtime contract available prepared account rows
        ≡ ok awaiting_ledger
      → ⊥
  unfolding get_authorization_status load
  recorded_status false prepared account rows intent n a e same recorded h =
      let (i, e1, h1) = bind_parts (parse_deployment_intent (of_intent prepared.intent)) _ h in
      let q : err (release persistence_unavailable) ≡ ok awaiting_ledger = h1 in cc
  recorded_status true prepared account rows intent n a e same recorded h =
      let (i, e1, h1) = bind_parts (parse_deployment_intent (of_intent prepared.intent)) _ h in
      let (row, e2, h2) = bind_parts (load true i.nonce account rows) _ h1 in
      let (json, e3, h3) = bind_parts (canonical_serialize p.is_nfc (of_intent i)) _ h2 in
      let (k, h4) = >>-eq-ok (require _ (release signature_mismatch)) _ h3 in
      let own : i.nonce ≡ n =
        ap (λ (x : DeploymentIntent). x.nonce) (ok-injective (sym e1 ∙ e)) ∙ same in
      elim (load_recorded i.nonce a account rows (rw (sym own) at recorded)) [
        | inl (r, f, c) ↦
            let same_row : r ≡ row = ok-injective (sym f ∙ e2) in
            consumed_status row prepared (ap (λ (x : Row). x.state) (sym same_row) ∙ c) h4
        | inr f ↦ let q = sym f ∙ e2 in cc
      ]

module _ (p : Platform) (encoding : Encoding) (signing : Signing) (runtime : Runtime)
    (contract : Str) (signers : List Str) where
  -- After a call of `consume` that returned, on a table with distinct nonces,
  -- `getAuthorizationStatus` never says of a request whose intent has that nonce that it still
  -- awaits the Ledger, whatever the account.
  pub consume_release-get_authorization_status :
      (loads updates : Bool) (reader : Reader) (input : ConsumeReleaseRequest)
      (rows rest : List Row) (a : ReleaseAuthorization)
      → IsKeyed rows
      → consume_release p encoding signing runtime contract signers loads updates reader input rows
        ≡ (ok a, rest)
      → (available : Bool) (prepared : PreparedReleaseRequest) (account : Option Str)
        (intent : DeploymentIntent)
      → parse_deployment_intent (of_intent prepared.intent) ≡ ok intent
      → intent.nonce ≡ a.intent.nonce
      → ¬ (
          get_authorization_status p runtime contract available prepared account rest
          ≡ ok awaiting_ledger)
  consume_release-get_authorization_status loads updates reader input rows rest a k h available
        prepared account intent read same =
      let (row, text, issued_row, granted, recorded) =
        consume_release-IsGranted p encoding signing runtime contract signers loads updates reader
          input rows rest a k h in
      recorded_status p runtime contract available prepared account rest intent a.intent.nonce text
        read same recorded
