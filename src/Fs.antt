-- ===== src/Fs.antt =====
-- Pipes, open files and mounted file systems: kernel/src/fs.
pub mod Pipe
pub mod File
pub mod Mounts
