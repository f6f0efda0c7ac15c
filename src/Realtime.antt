-- ===== src/Realtime.antt =====
-- pkg/realtime: the parts that every service shares.
pub mod Hub
pub mod Outbox
pub mod Assertions
pub mod Authentication
