-- ===== src/Mm.antt =====
-- Memory management: kernel/src/mm and kernel/arch/riscv/page_table.rs.
pub mod Address
pub mod FrameAllocator
pub mod Pte
pub mod PageTable
pub mod PageRuns
pub mod AddressSpace
pub mod ForwardList
pub mod Cow
pub mod Loader
pub mod Slab
