-- ===== src/Buffers.antt =====
-- core/src/buffers: the ring of published frames that replay is served from.
pub mod Ring
