-- ===== src/Domain.antt =====
-- packages/domain
pub mod Value
pub mod Identifiers
pub mod Timestamps
pub mod Canonical
pub mod Records
pub mod Schemas
pub mod ReleaseSchemas
pub mod Digests
pub mod Bindings
