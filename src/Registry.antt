-- ===== src/Registry.antt =====
-- internal/registry: the cache of the Console's App Registry.
pub mod App
pub mod Cache
