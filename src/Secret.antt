-- ===== src/Secret.antt =====
-- The adapters of secrets, internal/secret.
pub mod Volume
