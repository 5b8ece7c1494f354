-- ===== src/Ledger.antt =====
-- The signing of an intent on a Ledger device (packages/ledger-gate/src).
pub mod Errors
pub mod Context
pub mod StrictAction
