-- ===== src/Auth.antt =====
-- The package auth: who calls, what the caller creates, and what the caller sees.
pub mod Subject
pub mod Logic
pub mod Authn
pub mod Namespace
pub mod Tenants
pub mod Headers
mod Tests
