-- ===== src/Release/Operations/Pending.antt =====
-- What `getAuthorizationStatus` says of a request that has just been prepared.
use mathlib.Core.Path.{subst, sym}
use rovaulta.Release.Operations.{prepare}
use rovaulta.Release.Operations.Issued.{IsStored, issued_row, prepare_parts}
use rovaulta.Release.Status.{get_authorization_status, awaiting_ledger}
use rovaulta.Release.Service.{Runtime, Reader, DeploymentProposal, PreparedReleaseRequest}
use rovaulta.Chain.TypedData.{Signing}
use rovaulta.Chain.Transport.{Encoding}
use rovaulta.Domain.Digests.{Platform}
use rovaulta.Errors.{ok}
use rovaulta.Release.NonceStore.{
  load, Row, is_other_account, has_nonce, select, StoredReleaseRequest,
}
use rovaulta.Prelude.{
  Str, List, Option, any, ◌≡◌, false, true, some, str_eq_refl, ◌++◌, ◌∷◌, none, [], refl,
  Bool-cases, inl, inr, ℕ, Bool, sym,
}

select_added :
    (n : Str) (rows : List Row) (r : Row)
    → any (has_nonce n) rows ≡ false
    → has_nonce n r ≡ true
    → select n (rows ++ r ∷ []) ≡ some r
select_added n [] r h k = rw k refl
select_added n (x ∷ xs) r h k = elim (Bool-cases (has_nonce n x)) [
  | inl e ↦ absurd (let q : true ≡ false = rw e at h in cc)
  | inr e ↦ rw e (select_added n xs r (rw e at h) k)
]

same_account : (account : Option Str) → is_other_account account account ≡ false
same_account none = refl
same_account (some a) = rw (str_eq_refl a) refl

load_added :
    (n : Str) (account : Option Str) (rows : List Row) (r : Row)
    → any (has_nonce n) rows ≡ false
    → has_nonce n r ≡ true
    → r.request.account_id ≡ account
    → load true n account (rows ++ r ∷ []) ≡ ok r
unfolding load
load_added n account rows r h k same =
    rw (select_added n rows r h k, same, same_account account) refl

module _ (p : Platform) (encoding : Encoding) (signing : Signing) (runtime : Runtime)
    (contract : Str) (signers : List Str) where
  stored-pending :
      (proposal : DeploymentProposal) (request : StoredReleaseRequest)
      (prepared : PreparedReleaseRequest) (rows : List Row)
      → IsStored p proposal request prepared
      → any (has_nonce request.nonce) rows ≡ false
      → get_authorization_status p runtime contract true prepared proposal.account_id
          (rows ++ issued_row request ∷ [])
        ≡ ok awaiting_ledger
  unfolding get_authorization_status
  stored-pending proposal request prepared rows stored fresh =
      let found =
        load_added prepared.intent.nonce proposal.account_id rows (issued_row request)
          (rw stored.nonce at fresh) (rw stored.nonce (str_eq_refl prepared.intent.nonce))
          stored.account in
      rw
        (
          stored.read,
          found,
          stored.json,
          stored.intent_digest,
          stored.typed_digest,
          stored.signer,
          str_eq_refl request.intent_json,
          str_eq_refl prepared.protocol_intent_digest,
          str_eq_refl prepared.typed_data_digest,
          str_eq_refl (runtime.to_lower_case prepared.authorized_signer),
        )
        refl

  -- After a call of `prepare` that returned, `getAuthorizationStatus`, asked by the same account
  -- about the request that it returned, reports that the request awaits the Ledger, if the database
  -- runs the `SELECT`.
  pub prepare-get_authorization_status :
      (reader : Reader) (ttl : ℕ) (random_bytes : List ℕ) (available : Bool)
      (proposal : DeploymentProposal) (rows rest : List Row) (prepared : PreparedReleaseRequest)
      → prepare p encoding signing runtime contract signers reader ttl random_bytes available
          proposal rows
        ≡ (ok prepared, rest)
      → get_authorization_status p runtime contract true prepared proposal.account_id rest
        ≡ ok awaiting_ledger
  prepare-get_authorization_status reader ttl random_bytes available proposal rows rest prepared h =
      let (request, clearance, snapshot, e1, e2, made, stored, fresh, added) =
        prepare_parts p encoding signing runtime contract signers reader ttl random_bytes available
          proposal rows rest prepared h in
      subst
        (λ (r : List Row).
          get_authorization_status p runtime contract true prepared proposal.account_id r
          ≡ ok awaiting_ledger)
        (sym added) (stored-pending proposal request prepared rows stored fresh)
