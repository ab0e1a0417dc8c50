-- ===== src/Tests.antt =====
-- Runs of the definitions at concrete inputs, and each theorem that has hypotheses at an input
-- that meets them.
mod Classifiers
mod Redaction
mod Service
mod Spans
mod JsonTexts
mod Signatures
mod Settings
mod Chat
mod Catalog
mod ToolCalls
mod Network
mod Streams
