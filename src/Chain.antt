-- ===== src/Chain.antt =====
-- packages/chain-client: the registry of clearances, and the typed data that an intent is signed as.
pub mod Numbers
pub mod Transport
pub mod Registry
pub mod TypedData
