-- ===== src/Agent.antt =====
-- The deployment agent (apps/api/src/agent): what a request and the model's tool calls may name.
pub mod Catalog
pub mod Tools
