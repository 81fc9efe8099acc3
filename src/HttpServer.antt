-- ===== src/HttpServer.antt =====
-- internal/protocols/httpserver/server.go: the HTTP server around the matcher.
pub mod Counts
pub mod Reply
pub mod Truncate
pub mod Ntlm
pub mod Handle
pub mod Sequence
mod Tests
