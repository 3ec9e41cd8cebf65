-- ===== src/Sequence.antt =====
-- core/src/sequence: the sequence tracker and the duplicate filter.
pub mod Tracker
pub mod Dedup
