-- ===== src/Application.antt =====
-- The application (apps/api/src/application).
pub mod Clearance
