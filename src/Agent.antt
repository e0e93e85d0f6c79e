-- ===== src/Agent.antt =====
-- internal/agent: the Config Agent.
pub mod Debounce
pub mod Backoff
pub mod FetchLoop
pub mod Render
pub mod Settings
