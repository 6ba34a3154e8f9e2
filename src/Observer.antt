-- ===== src/Observer.antt =====
-- src/observer: device state as JSON, and the observers that are told of its changes.
pub mod PathValidation
pub mod Merge
pub mod Pointer
pub mod Channels
pub mod Memory
pub mod Persistent
pub mod Sled
pub mod Redb
mod Tests
