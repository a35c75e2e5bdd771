-- ===== src/Sync.antt =====
-- src/sync_coordinator.hpp: drops of a frame on one branch of a fork are passed on to its siblings.
pub mod Group
pub mod Coordinator
pub mod Context
