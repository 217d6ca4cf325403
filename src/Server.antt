-- ===== src/Server.antt =====
-- internal/server/server.go: the API, how it answers an error, checks a token, and streams an
-- exec's output.
pub mod Problem
pub mod Sse
pub mod Api
pub mod Token
