-- ===== src/Release/Operations/Replay.antt =====
-- A nonce that `consume` has recorded as consumed is not accepted again.
use rovaulta.Release.Operations.Effects.{consume_release-IsGranted}
use rovaulta.Domain.ReleaseSchemas.{parse_deployment_intent}
use rovaulta.Errors.{ok, ReleaseGateErrorCode, err, release, nonce_not_found, replay_rejected}
use rovaulta.Domain.Records.{DeploymentIntent}
use rovaulta.Release.Operations.{
  find_issued, consume_release, ConsumeReleaseRequest, authorize, Reader, DeploymentIntent,
  ReleaseAuthorization, ok, parse_deployment_intent,
}
use rovaulta.Release.NonceStore.Update.{IsRecorded, IsKeyed}
use rovaulta.Release.Service.{Runtime, Reader, ReleaseAuthorization}
use rovaulta.Chain.TypedData.{Signing}
use rovaulta.Chain.Transport.{Encoding}
use rovaulta.Domain.Digests.{Platform}
use rovaulta.Release.NonceStore.{load, Row, consumed, is_other_account}
use rovaulta.Prelude.{Str, Option, List, Bool, true, ◌≡◌, ◌⊎◌, Bool-cases, sym, inl, inr, refl}

-- Of a consumed row, the store gives the row or hides it from another account.
pub load_recorded :
    (n a : Str) (account : Option Str) (rows : List Row)
    → IsRecorded n a rows
    → ((row : Row) × (load true n account rows ≡ ok row) × (row.state ≡ consumed))
      ⊎ (load true n account rows ≡ err (release nonce_not_found))
unfolding load
load_recorded n a account rows (row, e, c, j) =
    elim (Bool-cases (is_other_account account row.request.account_id)) [
      | inl t ↦ inr (rw (e, t))
      | inr f ↦ inl (row, rw (e, f), c)
    ]

module _ (p : Platform) (encoding : Encoding) (signing : Signing) (runtime : Runtime)
    (contract : Str) (signers : List Str) where
  find_recorded :
      (input : ConsumeReleaseRequest) (rows : List Row) (supplied : DeploymentIntent) (n a : Str)
      → parse_deployment_intent input.intent ≡ ok supplied
      → supplied.nonce ≡ n
      → IsRecorded n a rows
      → (e : ReleaseGateErrorCode) × (find_issued p encoding signing runtime contract signers true
            input rows
          ≡ err (release e))
        × ((e ≡ replay_rejected) ⊎ (e ≡ nonce_not_found))
  unfolding find_issued
  find_recorded input rows supplied n a h same recorded =
      elim (load_recorded supplied.nonce a input.account_id rows (rw (sym same) at recorded)) [
        | inl (row, e, c) ↦ (replay_rejected, rw (h, e, c), inl refl)
        | inr e ↦ (nonce_not_found, rw (h, e), inr refl)
      ]

  recorded_rejected :
      (updates : Bool) (reader : Reader) (input : ConsumeReleaseRequest) (rows : List Row)
      (supplied : DeploymentIntent) (n a : Str)
      → parse_deployment_intent input.intent ≡ ok supplied
      → supplied.nonce ≡ n
      → IsRecorded n a rows
      → (e : ReleaseGateErrorCode) × (consume_release p encoding signing runtime contract signers
            true updates reader input rows
          ≡ (err (release e), rows))
        × ((e ≡ replay_rejected) ⊎ (e ≡ nonce_not_found))
  unfolding consume_release authorize
  recorded_rejected updates reader input rows supplied n a h same recorded =
      let (e, found, which) = find_recorded input rows supplied n a h same recorded in
      (e, rw (consume_release, authorize, found), which)

  -- After a call of `consume` that returned, on a table with distinct nonces, every further call
  -- with an intent of the same nonce is rejected as a replay, or as a nonce that the caller's
  -- account does not have, and leaves the table as it is: whatever its signature, its account and
  -- the registry, provided that the database runs the `SELECT`.
  pub consume_release-replay :
      (loads updates : Bool) (reader : Reader) (input : ConsumeReleaseRequest)
      (rows rest : List Row) (a : ReleaseAuthorization)
      → IsKeyed rows
      → consume_release p encoding signing runtime contract signers loads updates reader input rows
        ≡ (ok a, rest)
      → (updates_again : Bool) (reader_again : Reader) (again : ConsumeReleaseRequest)
        (supplied : DeploymentIntent)
      → parse_deployment_intent again.intent ≡ ok supplied
      → supplied.nonce ≡ a.intent.nonce
      → (e : ReleaseGateErrorCode) × (consume_release p encoding signing runtime contract signers
            true updates_again reader_again again rest
          ≡ (err (release e), rest))
        × ((e ≡ replay_rejected) ⊎ (e ≡ nonce_not_found))
  consume_release-replay loads updates reader input rows rest a k h updates_again reader_again again
        supplied read same =
      let (row, text, issued_row, granted, recorded) =
        consume_release-IsGranted p encoding signing runtime contract signers loads updates reader
          input rows rest a k h in
      recorded_rejected updates_again reader_again again rest supplied a.intent.nonce text read same
        recorded
