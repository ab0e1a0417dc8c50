-- ===== src/Api.antt =====
-- internal/api/handler.go: the routes of the proxy.
pub mod Response
pub mod Normalize
pub mod Models
pub mod Chat
