-- ===== src/Release.antt =====
-- The release gate (apps/api/src/release).
pub mod NonceStore
pub mod Signers
pub mod Service
pub mod Operations
pub mod Status
