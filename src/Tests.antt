-- ===== src/Tests.antt =====
-- Concrete runs, and the theorems at concrete inputs.
mod Bytes
mod Engine
mod Frames
mod Ordered
mod Publishing
mod Stores
mod Network
mod Commands
mod Recovery
mod Replays
mod Gaps
mod Loopback
mod Application
