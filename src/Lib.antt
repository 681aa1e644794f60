-- ===== src/Lib.antt =====
-- hecto-os: a small Unix-like kernel for RISC-V (Sv39), written in Rust. This library models the
-- kernel's own code in kernel/src and kernel/arch/riscv.
--
-- The parts. Memory is handed out in frames by a reference-counting allocator; page tables take
-- their tables from it, and map pages of a 39-bit space to frames; an address space keeps the areas of
-- a process above its page table. A process has a table of descriptors that the calls open, close and
-- copy; a pipe is one kind of descriptor, on which threads wait. Threads have numbers, which say where
-- their kernel stacks are. The file system reads a block device through a buffer of one block.
--
-- The files.
--   Base           Boolean tests, lists and 64-bit words over the native numbers
--   Mm.Address     kernel/src/mm/address.rs: PA, VA, PPN, VPN, VARangeOrd, round_up
--   Mm.FrameAllocator  kernel/src/mm/physical_page.rs: PhyPageAllocator and FrameTracker; `step` is
--                  one frame_alloc, Clone or Drop, and `run` a history of them
--   Mm.Pte         kernel/arch/riscv/page_table.rs: PTEImpl
--   Mm.PageTable   kernel/arch/riscv/page_table.rs and kernel/src/mm/page_table.rs: find_pte,
--                  find_pte_create, map_one, unmap_one, remap_one, modify_flags, translate_va
--   Mm.AddressSpace  kernel/src/mm/address_space.rs and PageTable::map of kernel/src/mm/page_table.rs:
--                  insert_framed_area, remove_area, alloc_user_area, brk
--   Mm.Cow         kernel/src/mm/address_space.rs: new_kernel, fork, handle_pagefault
--   Mm.Loader      kernel/src/mm/address_space.rs: from_elf, its loop over the pages of a segment
--   Mm.PageRuns    kernel/src/mm/heap/slab_allocator/page.rs: page_alloc, page_free, page_init
--   Mm.ForwardList  kernel/src/mm/heap/slab_allocator/linked_list/forward_list.rs: ForwardList
--   Mm.Slab        kernel/src/mm/heap/slab_allocator/slab.rs: init, zone_index (Mm.Slab), malloc
--                  (Mm.Slab.Zones), free (Mm.Slab.Free)
--   Drivers.Block  kernel/src/drivers/block/mod.rs: BufBlkDeviceInner
--   Drivers.Sdcard  kernel/src/drivers/block/sdcard.rs: SDCard and SDCardWrapper. The SPI bus is the
--                  bytes that the card puts on the line and a list of what the driver does;
--                  Drivers.Sdcard.Protocol has the commands and answers, Registers the registers,
--                  Sectors the reads and writes and Init the initialisation
--   Fs.Pipe        kernel/src/fs/pipe.rs and kernel/src/sync/condvar.rs: PipeRead, PipeWrite, Condvar
--   Sync.SpinLock  kernel/src/sync/spinlock.rs: SpinLock, LockGuard; a critical section is a lock and a drop
--   Fs.File        kernel/src/fs/file.rs and vnode.rs: FileDescriptor, Vnode; Fs.File.Calls: sys_read,
--                  sys_write, sys_writev, sys_sendfile; Fs.File.Open: file_open, file_unlink, mkdir;
--                  Fs.File.Paths: normalize_path, sys_chdir, sys_getcwd
--   Fs.Mounts      kernel/src/fs/mod.rs: filesystem_lookup, regeister_file_system
--   Timer          kernel/src/timer.rs (Timer) and the clock of kernel/arch/riscv/timer.rs
--   Process.Wait   kernel/src/syscall/process.rs: exit and one turn of sys_wait4
--   Process.Tid    kernel/src/process/thread.rs: TidAllocator, Tid, get_kernel_stack_range
--   Process.Mmap   kernel/src/syscall/mm.rs: sys_mmap, sys_mprotect, sys_munmap, sys_brk
--   Process.UserStack  kernel/src/process/process.rs: Process::alloc_user_stack
--   Process.FdTable  kernel/src/process/process.rs (fd_alloc, fd_alloc_from) and
--                  kernel/src/syscall/fs.rs (openat, close, dup, dup3, pipe2, fcntl)
--
-- Numbers. A usize is a native number below 2^64; `+` and `-` have no result on overflow, as in the
-- debug build, which panics. Shifts and `!` work on 64 bits. `none` is a panic wherever a file says
-- so; an error that the code returns is a value.
--
-- State. Each operation takes the state and gives the new one. The kernel holds a spin lock around
-- each of these operations, so an operation is one step; a write to a pipe and the notify_all that it calls
-- after the lock are one step, too. The frames that hold page tables are a
-- function from frame and index to entry, in place of the kernel's linear view of memory.
--
-- Loops are recursion on the list or the number that they count down. Some have fuel: the walk of
-- remove_node has a round for each node, the search of Timer's register one for each event, the
-- doubling of the zone size two rounds from 32 KiB to 128 KiB, and the bits of a word 64. The wait for a busy card has fuel as an argument, enough where the card is busy
-- for fewer rounds; that of sys_sendfile has fuel, enough where it is more than the bytes to send. One
-- turn of the loop of sys_wait4, or of a read of a pipe, is one step of a history.
--
-- Not modelled: the vendored and copied crates (vendor, fatfs, core_io, k210-hal, k210-pac,
-- k210-soc), the boards' assembly and boot code, the console, the logger and the virtio driver (glue on a
-- vendored crate); the parsing of ELF headers (a vendored crate), the drop of the last descriptor of a vnode, and the process calls clone and execve.
pub mod Base
pub mod Drivers
pub mod Fs
pub mod Mm
pub mod Process
pub mod Sync
pub mod Timer
