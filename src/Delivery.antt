-- ===== src/Delivery.antt =====
-- core/src/delivery: delivery modes over the tracker, the filter and the recovery engine.
pub mod Receiver
