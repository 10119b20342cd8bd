-- ===== src/Protocol.antt =====
-- internal/protocol: the vocabulary that the controller and the clients share.
pub mod Phase
pub mod Config
pub mod Prefix
pub mod Interval
pub mod Latency
pub mod Sample
mod Tests
