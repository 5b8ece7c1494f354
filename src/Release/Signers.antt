-- ===== src/Release/Signers.antt =====
-- The policy of authorized signers (apps/api/src/release/signer-policy.ts). The normal form of an
-- address, viem's `getAddress`, is a parameter; a policy is its list of distinct addresses.
use rovaulta.Errors.{
  Result, ok, ◌>>=◌, or_throw, release, ◌>>◌, unauthorized_signer, reject, require, fail_release,
}
use rovaulta.Chain.TypedData.{Signing}
use rovaulta.Prelude.{Str, List, ◌∷◌, [], any, length, str_eq, ◌==◌, true, ◌++◌, false}

module _ (signing : Signing) where
  -- The loop of the constructor, over the addresses taken so far. The inputs are trimmed texts.
  unfoldable pub add_signers : List Str → List Str → Result (List Str)
  add_signers [] taken = ok taken
  add_signers (input ∷ inputs) taken =
      or_throw (signing.get_address input) (release unauthorized_signer) >>= λ address.
      elim (any (str_eq address) taken) [
        | true ↦ fail_release unauthorized_signer
        | false ↦ add_signers inputs (taken ++ address ∷ [])
      ]

  unfoldable pub new_policy : List Str → Result (List Str)
  new_policy inputs = do
    signers ← add_signers inputs []
    reject (length signers == 0) (release unauthorized_signer)
    ok signers

  unfoldable pub assert_authorized : List Str → Str → Result Str
  assert_authorized signers input = do
    address ← or_throw (signing.get_address input) (release unauthorized_signer)
    require (any (str_eq address) signers) (release unauthorized_signer)
    ok address
