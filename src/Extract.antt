-- ===== src/Extract.antt =====
-- src/extract: what handlers are given of a request.
pub mod Path
pub mod Payload
mod Tests
