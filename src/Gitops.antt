-- ===== src/Gitops.antt =====
-- internal/gitops: the local clone of the configuration repository.
pub mod Paths
pub mod Push
