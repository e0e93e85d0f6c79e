-- ===== src/Store.antt =====
-- The store of service configurations, internal/store: one module per concern of store.go.
pub mod Tests
pub mod Value
pub mod Merge
pub mod Types
pub mod Versions
pub mod Reload
pub mod History
pub mod Listing
pub mod SecretIds
pub mod Changes
pub mod Revert
pub mod Paths
pub mod Inherit
