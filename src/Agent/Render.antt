-- ===== src/Agent/Render.antt =====
-- internal/agent/render.go: the payloads that the agent writes.
pub mod EnvSh
