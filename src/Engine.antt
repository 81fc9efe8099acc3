-- ===== src/Engine.antt =====
-- internal/engine/matcher.go: which mock answers a request, and why a mock does not.
pub mod Platform
pub mod Path
pub mod Values
pub mod Auth
pub mod Body
pub mod Render
pub mod Match
pub mod Diagnose
pub mod WebSocket
pub mod Examples
mod Tests
