-- ===== src/State.antt =====
-- Package internal/state and its backends.
pub mod Entry
pub mod Backend
pub mod Store
pub mod ConfigMap
pub mod Remote
pub mod Redis
pub mod Memcache
pub mod Memory
pub mod Factory
mod Tests
