-- ===== src/Serialization.antt =====
-- core/src/serialization: the frame codec.
pub mod Codec
