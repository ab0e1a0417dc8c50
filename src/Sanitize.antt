-- ===== src/Sanitize.antt =====
-- internal/sanitize: redaction of outgoing text and restoration of what comes back.
pub mod Token
pub mod TokenMap
pub mod Span
pub mod Spans
pub mod Redact
pub mod Messages
pub mod Stream
