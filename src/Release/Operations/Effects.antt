-- ===== src/Release/Operations/Effects.antt =====
-- What `prepare` and `consume` return and what they do to the store, together.
use rovaulta.Release.Operations.Consumed.{
  IsIssuedRow, IsGranted, find_issued-IsIssuedRow, authorize_row-IsGranted,
}
use rovaulta.Release.NonceStore.Update.{
  IsKeyed, IsRecorded, update-le_one, update_none, update-IsRecorded,
}
use rovaulta.Release.Operations.{
  consume_release, authorize, Reader, ConsumeReleaseRequest, ReleaseAuthorization, find_issued,
  authorize_row, prepare, DeploymentProposal, prepare_request,
}
use rovaulta.Release.Service.{Runtime, Reader, ReleaseAuthorization, DeploymentProposal}
use rovaulta.Chain.TypedData.{Signing}
use rovaulta.Chain.Transport.{Encoding}
use rovaulta.Domain.Digests.{Platform}
use rovaulta.Errors.{
  Result, Failure, ◌>>◌, ok, err, require_passed, release, replay_rejected, Result-cases, >>-eq-ok,
  ok-injective, bind_parts,
}
use rovaulta.Release.NonceStore.{consume, issue, StoredReleaseRequest, Row, update, has_nonce}
use mathlib.Core.Path.{subst, ap, sym}
use rovaulta.Prelude.{
  Str, Bool, Option, List, ◌≡◌, Bool-cases, arith, any, ◌==◌, inl, false, inr, refl, true, ap, ◌∙◌,
  sym, ℕ,
}

-- The `UPDATE` that returns has recorded the authorization; the one that throws has changed nothing.
consume-IsRecorded :
    (u : Bool) (n a : Str) (o : Option Str) (rows : List Row)
    → IsKeyed rows
    → (consume u n a o rows).0 ≡ ok tt
    → IsRecorded n a ((consume u n a o rows).1)
unfolding consume
consume-IsRecorded false n a o rows k h = cc
consume-IsRecorded true n a o rows k h =
    let q = require_passed ((update n a o rows).1 == 1) (release replay_rejected) h in
    update-IsRecorded n a o rows k (ground arith)

consume_error :
    (u : Bool) (n a : Str) (o : Option Str) (rows : List Row) (e : Failure)
    → IsKeyed rows
    → (consume u n a o rows).0 ≡ err e
    → (consume u n a o rows).1 ≡ rows
unfolding consume
consume_error false n a o rows e k h = refl
consume_error true n a o rows e k h =
    let le = update-le_one n a o rows k in
    let q : (update n a o rows).1 ≡ 0 = ground arith in update_none n a o rows q

issue_error :
    (b : Bool) (r : StoredReleaseRequest) (rows : List Row) (e : Failure)
    → (issue b r rows).0 ≡ err e
    → (issue b r rows).1 ≡ rows
unfolding issue
issue_error false r rows e h = refl
issue_error true r rows e h = elim (Bool-cases (any (has_nonce r.nonce) rows)) [
  | inl c ↦ rw c refl
  | inr c ↦ absurd (let q : ok tt ≡ err e = rw c at h in cc)
]

then_error {ℓ} :
    {A : Type ℓ} (m : Result (Unit {0})) (a : A) (e : Failure) → (m >> ok a) ≡ err e → m ≡ err e
then_error (ok tt) a e h = cc
then_error (err x) a e h = ground arith

pair_eq {ℓ κ} : {A : Type ℓ} {B : Type κ} {x y : A × B} → x.0 ≡ y.0 → x.1 ≡ y.1 → x ≡ y
pair_eq e f i = (e i, f i)

module _ (p : Platform) (encoding : Encoding) (signing : Signing) (runtime : Runtime)
    (contract : Str) (signers : List Str) where
  authorize_parts :
      (loads : Bool) (reader : Reader) (input : ConsumeReleaseRequest) (rows : List Row)
      (found : ReleaseAuthorization × Str)
      → authorize p encoding signing runtime contract signers loads reader input rows ≡ ok found
      → (row : Row) × (find_issued p encoding signing runtime contract signers loads input rows
          ≡ ok row)
        × (authorize_row p encoding signing runtime contract signers reader input.signature
              row.request
            ≡ ok found)
  unfolding authorize
  authorize_parts loads reader input rows found h =
      bind_parts (find_issued p encoding signing runtime contract signers loads input rows) _ h

  -- A call of `consume` that returned, taken apart at the call on the store.
  consume_release_parts :
      (loads updates : Bool) (reader : Reader) (input : ConsumeReleaseRequest)
      (rows rest : List Row) (a : ReleaseAuthorization)
      → consume_release p encoding signing runtime contract signers loads updates reader input rows
        ≡ (ok a, rest)
      → (text : Str) × (authorize p encoding signing runtime contract signers loads reader input
            rows
          ≡ ok (a, text))
        × (consume updates a.intent.nonce text input.account_id rows ≡ (ok tt, rest))
  unfolding consume_release
  consume_release_parts loads updates reader input rows rest a h =
      elim (Result-cases
        (authorize p encoding signing runtime contract signers loads reader input rows)) [
          | inr (x, e) ↦
              absurd (let q : err x ≡ ok a = ap (λ x. x.0) (rw (consume_release, e) at h) in cc)
          | inl ((b, text), e) ↦
              let c = consume updates b.intent.nonce text input.account_id rows in
              let g : (c.0 >> ok b, c.1) ≡ (ok a, rest) = rw (consume_release, e) at h in
              let (done, same) = >>-eq-ok (c.0) (ok b) (ap (λ x. x.0) g) in
              let same_rest : c.1 ≡ rest = ap (λ x. x.1) g in
              let whole : c ≡ (ok tt, rest) = pair_eq done same_rest in
              (
                text,
                e ∙ ap (λ (d : ReleaseAuthorization). ok (d, text)) (ok-injective same),
                subst
                    (λ (d : ReleaseAuthorization).
                      consume updates d.intent.nonce text input.account_id rows ≡ (ok tt, rest))
                    (ok-injective same) whole,
              )
        ]

  -- A call of `consume` that returns an authorization, on a table with distinct nonces: the row of
  -- the supplied intent was issued and not consumed, to the given account; the stored request was
  -- signed by its authorized signer; the clearance was eligible when it was read again, in a block
  -- that is not behind the first one and in which the intent has not expired; and the nonce's row
  -- is consumed afterwards and holds the text of this authorization.
  pub consume_release-IsGranted :
      (loads updates : Bool) (reader : Reader) (input : ConsumeReleaseRequest)
      (rows rest : List Row) (a : ReleaseAuthorization)
      → IsKeyed rows
      → consume_release p encoding signing runtime contract signers loads updates reader input rows
        ≡ (ok a, rest)
      → (row : Row) × (text : Str) × IsIssuedRow p encoding signing runtime contract signers loads
          input rows row
        × IsGranted p encoding signing runtime contract signers reader input.signature row.request a
            text
        × IsRecorded a.intent.nonce text rest
  consume_release-IsGranted loads updates reader input rows rest a k h =
      let (text, e, done) = consume_release_parts loads updates reader input rows rest a h in
      let (row, f, g) = authorize_parts loads reader input rows (a, text) e in
      (
        row,
        text,
        find_issued-IsIssuedRow p encoding signing runtime contract signers loads input rows row f,
        authorize_row-IsGranted p encoding signing runtime contract signers reader input.signature
            row.request (a, text) g,
        subst (IsRecorded a.intent.nonce text) (ap (λ x. x.1) done) (
            consume-IsRecorded updates a.intent.nonce text input.account_id rows k
              (ap (λ x. x.0) done)),
      )

  -- Whatever `consume` throws, on a table with distinct nonces it leaves the table as it was.
  pub consume_release_error :
      (loads updates : Bool) (reader : Reader) (input : ConsumeReleaseRequest)
      (rows rest : List Row) (x : Failure)
      → IsKeyed rows
      → consume_release p encoding signing runtime contract signers loads updates reader input rows
        ≡ (err x, rest)
      → rest ≡ rows
  unfolding consume_release
  consume_release_error loads updates reader input rows rest x k h =
      elim (Result-cases
        (authorize p encoding signing runtime contract signers loads reader input rows)) [
          | inr (y, e) ↦ sym (ap (λ x. x.1) (rw (consume_release, e) at h))
          | inl ((b, text), e) ↦
              let c = consume updates b.intent.nonce text input.account_id rows in
              let g : (c.0 >> ok b, c.1) ≡ (err x, rest) = rw (consume_release, e) at h in
              let failed = then_error (c.0) b x (ap (λ x. x.0) g) in
              sym (ap (λ x. x.1) g)
              ∙ consume_error updates b.intent.nonce text input.account_id rows x k failed
        ]

  -- Whatever `prepare` throws, it leaves the table as it was.
  pub prepare_error :
      (reader : Reader) (ttl : ℕ) (random_bytes : List ℕ) (available : Bool)
      (proposal : DeploymentProposal) (rows rest : List Row) (x : Failure)
      → prepare p encoding signing runtime contract signers reader ttl random_bytes available
          proposal rows
        ≡ (err x, rest)
      → rest ≡ rows
  unfolding prepare
  prepare_error reader ttl random_bytes available proposal rows rest x h =
      elim (Result-cases (
        prepare_request p encoding signing runtime contract signers reader ttl random_bytes
          proposal)) [
            | inr (y, e) ↦ sym (ap (λ x. x.1) (rw (prepare, e) at h))
            | inl ((request, prepared), e) ↦
                let c = issue available request rows in
                let g : (c.0 >> ok prepared, c.1) ≡ (err x, rest) = rw (prepare, e) at h in
                let failed = then_error (c.0) prepared x (ap (λ x. x.0) g) in
                sym (ap (λ x. x.1) g) ∙ issue_error available request rows x failed
          ]
