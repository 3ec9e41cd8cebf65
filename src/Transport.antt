-- ===== src/Transport.antt =====
-- transports/udp: the endpoints over UDP, with what their threads do, and the channel to the
-- application.
pub mod Publisher
pub mod Subscriber
pub mod System
pub mod Channel
pub mod Application
