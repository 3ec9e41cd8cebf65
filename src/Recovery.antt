-- ===== src/Recovery.antt =====
-- core/src/recovery: replay requests and the engine that tracks them.
pub mod Data
pub mod Payloads
pub mod Engine
