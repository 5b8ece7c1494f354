-- ===== src/Ledger/Errors.antt =====
-- The errors of the device gate (packages/ledger-gate/src/errors.ts).
use rovaulta.Prelude.{Str, if◌then◌else◌, any, str_eq, codes, ◌∷◌, []}

pub data LedgerGateErrorCode : Type 0 where
  unsupported_browser device_connection_failed device_disconnected : LedgerGateErrorCode
  ethereum_app_unavailable unauthorized_signer clear_signing_unavailable : LedgerGateErrorCode
  human_rejected signing_failed malformed_signature : LedgerGateErrorCode

-- What the vendor's library or this package throws: an error of the gate, or any other value with
-- the text of its `errorCode`, which is empty where it has none.
pub data Thrown : Type 0 where
  gate : LedgerGateErrorCode → Thrown
  other : Str → Thrown

-- The first argument is the runtime's `toLowerCase`.
unfoldable pub normalize_ledger_error : (Str → Str) → Thrown → LedgerGateErrorCode
normalize_ledger_error lower (gate code) = code
normalize_ledger_error lower (other error_code) =
    if any (str_eq (lower error_code)) (codes "6982" ∷ codes "6985" ∷ codes "5515" ∷ [])
    then human_rejected
    else signing_failed
