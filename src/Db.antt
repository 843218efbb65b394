-- ===== src/Db.antt =====
-- src/db.rs: the databases that are open, and who may use them. Each module below is a part of it.
pub mod Names
pub mod Pools
pub mod Entry
pub mod Registry
pub mod State
pub mod Evict
pub mod Acquire
pub mod Maintenance
pub mod Invariant
pub mod Tenancy
pub mod System
mod Tests
