-- ===== src/Process.antt =====
-- Processes and threads: kernel/src/process and the system calls on descriptors.
pub mod FdTable
pub mod Tid
pub mod Wait
pub mod UserStack
pub mod Mmap
