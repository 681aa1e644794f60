-- ===== src/Sync.antt =====
-- Locks: kernel/src/sync.
pub mod SpinLock
