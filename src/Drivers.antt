-- ===== src/Drivers.antt =====
-- The buffered block device: kernel/src/drivers/block.
pub mod Block
pub mod Sdcard
