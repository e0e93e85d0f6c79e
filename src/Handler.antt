-- ===== src/Handler.antt =====
-- internal/handler/handler.go: what the read endpoints answer, and the long polling of the watches.
pub mod Payload
pub mod Watch
pub mod Respond
pub mod Read
pub mod Batch
pub mod Resolve
