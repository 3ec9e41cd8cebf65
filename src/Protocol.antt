-- ===== src/Protocol.antt =====
-- core/src/protocol: the header, the frames and the extensions of RTDP/1.
pub mod Header
pub mod Frame
pub mod HeaderCodec
pub mod Extensions
