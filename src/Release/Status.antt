-- ===== src/Release/Status.antt =====
-- `getAuthorizationStatus` of the release service (apps/api/src/release/release-service.ts).
use rovaulta.Chain.Transport.{sepolia_chain_id}
use rovaulta.Domain.Schemas.{current_version, legacy_version, is_text}
use rovaulta.Simulation.Parse.{code_units_le}
use rovaulta.Prelude.Sort.{sort}
use rovaulta.Domain.Canonical.{canonical_serialize}
use rovaulta.Domain.Identifiers.{is_hex}
use rovaulta.Domain.Records.{of_intent}
use rovaulta.Domain.ReleaseSchemas.{parse_deployment_intent}
use rovaulta.Domain.Timestamps.{is_digit, parse_unix_timestamp, to_number}
use rovaulta.Release.NonceStore.{Row, load, issued, consumed}
use rovaulta.Errors.{
  Result, ok, ◌>>=◌, or_throw, err, other_error, fail_release, persistence_unavailable, ◌>>◌,
  require, release, signature_mismatch, reject,
}
use rovaulta.Prelude.Int.{eq_ℤ, pos}
use rovaulta.Domain.Digests.{Platform}
use rovaulta.Domain.Value.{
  Fields, Value, field, str, integer, name, end, symbol, expect_data_object, get,
}
use rovaulta.Release.Service.{
  ReleaseAuthorization, Runtime, PreparedReleaseRequest, authorization_suffix,
}
use rovaulta.Prelude.{
  Str, List, Bool, codes, [], false, Option, ℕ, ◌∷◌, true, str_eq, ◌==◌, all, some, ◌&&◌, none,
  ◌||◌, length, leb, ltb,
}

-- The digests are those of the request that is asked about, and are left out.
pub data ReleaseAuthorizationStatus : Type 0 where
  awaiting_ledger : ReleaseAuthorizationStatus
  authorized : ReleaseAuthorization → ReleaseAuthorizationStatus

abbrev pub authorization_keys : List Str
authorization_keys =
    codes "action"
    ∷ codes "authorizedAt"
    ∷ codes "chainId"
    ∷ codes "expiresAt"
    ∷ codes "intent"
    ∷ codes "postcheckBlockHash"
    ∷ codes "postcheckBlockNumber"
    ∷ codes "precheckBlockHash"
    ∷ codes "precheckBlockNumber"
    ∷ codes "protocolIntentDigest"
    ∷ codes "recoveredSigner"
    ∷ codes "registry"
    ∷ codes "schemaVersion"
    ∷ codes "signatureHash"
    ∷ codes "typedDataDigest"
    ∷ []

-- `Object.keys(record)`, of an object that JSON.parse made
abbrev pub keys_of : Fields → List Str
keys_of end = []
keys_of (field symbol d v fs) = keys_of fs
keys_of (field (name k) d v fs) = k ∷ keys_of fs

abbrev pub same_texts : List Str → List Str → Bool
same_texts [] [] = true
same_texts [] (t ∷ ts) = false
same_texts (s ∷ ss) [] = false
same_texts (s ∷ ss) (t ∷ ts) = str_eq s t && same_texts ss ts

-- `/^0x[0-9a-f]{64}$/i`
abbrev pub is_hash_text : Str → Bool
is_hash_text (z ∷ x ∷ s) =
    z == b'0'
    && (x == b'x' || x == b'X')
    && length s == 64
    && all (λ c. is_hex c || leb b'A' c && leb c b'F') s
is_hash_text _ = false

-- `/^[0-9]+$/`
abbrev pub is_digits : Str → Bool
is_digits [] = false
is_digits (c ∷ s) = all is_digit (c ∷ s)

-- `typeof value === "string"`
abbrev pub text_of : Value → Option Str
text_of (str s) = some s
text_of _ = none

abbrev pub is_number : Value → ℕ → Bool
is_number (integer n) m = eq_ℤ n (pos m)
is_number _ m = false

module _ (p : Platform) (runtime : Runtime) (contract : Str) where
  -- The body of the `try` in `parseStoredAuthorization`; what it throws is not told apart.
  unfoldable pub read_authorization :
      Str → PreparedReleaseRequest → Str → Result ReleaseAuthorization
  read_authorization text prepared signer = do
    value ← or_throw (runtime.parse_json text) other_error
    fs ← expect_data_object value
    require (same_texts (sort code_units_le (keys_of fs)) authorization_keys) other_error
    intent ← parse_deployment_intent (get (codes "intent") fs)
    authorized_at ← parse_unix_timestamp (get (codes "authorizedAt") fs)
    expires_at ← parse_unix_timestamp (get (codes "expiresAt") fs)
    version ← or_throw (text_of (get (codes "schemaVersion") fs)) other_error
    require
        (str_eq version (current_version authorization_suffix)
          || str_eq version (legacy_version authorization_suffix))
        other_error
    read_json ← canonical_serialize p.is_nfc (of_intent intent)
    prepared_json ← canonical_serialize p.is_nfc (of_intent prepared.intent)
    require (str_eq read_json prepared_json) other_error
    require (is_text (get (codes "protocolIntentDigest") fs) prepared.protocol_intent_digest)
        other_error
    require (is_text (get (codes "typedDataDigest") fs) prepared.typed_data_digest) other_error
    require (is_text (get (codes "action") fs) (codes "ACTIVATE_DEPLOYMENT")) other_error
    require (is_number (get (codes "chainId") fs) sepolia_chain_id) other_error
    require (is_text (get (codes "registry") fs) contract) other_error
    recovered ← or_throw (text_of (get (codes "recoveredSigner") fs)) other_error
    require (str_eq (runtime.to_lower_case recovered) (runtime.to_lower_case signer)) other_error
    signature_hash ← or_throw (text_of (get (codes "signatureHash") fs)) other_error
    require (is_hash_text signature_hash) other_error
    require (str_eq expires_at intent.expires_at) other_error
    pre_number ← or_throw (text_of (get (codes "precheckBlockNumber") fs)) other_error
    require (is_digits pre_number && str_eq pre_number prepared.block_number) other_error
    pre_hash ← or_throw (text_of (get (codes "precheckBlockHash") fs)) other_error
    require (str_eq pre_hash prepared.block_hash) other_error
    post_number ← or_throw (text_of (get (codes "postcheckBlockNumber") fs)) other_error
    require (is_digits post_number) other_error
    reject (ltb (to_number post_number) (to_number pre_number)) other_error
    post_hash ← or_throw (text_of (get (codes "postcheckBlockHash") fs)) other_error
    require (is_hash_text post_hash) other_error
    ok (record {
      schema_version = version;
      intent = intent;
      protocol_intent_digest = prepared.protocol_intent_digest;
      typed_data_digest = prepared.typed_data_digest;
      registry = contract;
      recovered_signer = recovered;
      signature_hash = signature_hash;
      authorized_at = authorized_at;
      expires_at = expires_at;
      precheck_block_number = pre_number;
      precheck_block_hash = pre_hash;
      postcheck_block_number = post_number;
      postcheck_block_hash = post_hash;
    })

  unfoldable pub parse_stored_authorization :
      Str → PreparedReleaseRequest → Str → Result ReleaseAuthorization
  parse_stored_authorization text prepared signer = elim (read_authorization text prepared signer) [
    | ok authorization ↦ ok authorization
    | err e ↦ fail_release persistence_unavailable
  ]

  unfoldable pub get_authorization_status :
      Bool → PreparedReleaseRequest → Option Str → List Row → Result ReleaseAuthorizationStatus
  get_authorization_status available prepared account rows = do
    intent ← parse_deployment_intent (of_intent prepared.intent)
    row ← load available intent.nonce account rows
    intent_json ← canonical_serialize p.is_nfc (of_intent intent)
    require
        (str_eq row.request.intent_json intent_json
          && str_eq row.request.protocol_intent_digest prepared.protocol_intent_digest
          && str_eq row.request.typed_data_digest prepared.typed_data_digest
          && str_eq (runtime.to_lower_case row.request.authorized_signer)
              (runtime.to_lower_case prepared.authorized_signer))
        (release signature_mismatch)
    elim row.state [
      | issued ↦ elim row.authorization_json [
        | none ↦ ok awaiting_ledger
        | some text ↦ fail_release persistence_unavailable
      ]
      | consumed ↦ elim row.authorization_json [
        | none ↦ fail_release persistence_unavailable
        | some text ↦
            parse_stored_authorization text prepared row.request.authorized_signer >>= λ found.
            ok (authorized found)
      ]
    ]
