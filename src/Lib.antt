-- ===== src/Lib.antt =====
-- A verification library for hootux, a kernel for x86_64.
--
-- What is modelled. The kernel's memory is served by a chain of allocators. Before the memory
-- subsystem is up, frames come off the boot loader's memory map (Mem/PreInit.antt, for module
-- `pre_init_framealloc` of kernel/src/mem/buddy_frame_alloc.rs), which is later drained, block by
-- block, into the buddy allocator. Small heap requests are served by lists of blocks of nine sizes
-- (Mem/FixedBlock.antt and Mem/FixedBlock/Alloc.antt, for `NewFixedBlockAllocator` of
-- kernel/src/mem/allocator/fixed_size_block.rs and for
-- kernel/src/mem/allocator/allocator_linked_list.rs), which cracks larger blocks, and
-- asks a superior allocator for a page
-- when it has none. Large regions are kept in a list of their own (Mem/HighOrder.antt, for the
-- regions and `free` of kernel/src/mem/high_order_alloc.rs). A buffer that a device reads or writes
-- is described to it in physical regions and lent to the operation by a guard (Mem/Dma.antt and
-- Mem/Dma/Guard.antt, for kernel/src/mem/dma.rs). Page faults in regions that are to be filled on
-- demand are looked up in a list (Mem/VirtFixup.antt, for kernel/src/mem/virt_fixup.rs). The driver of SATA disks makes the table of a
-- command of those regions (Ahci/Prdt.antt, for `build_prdt` of
-- drivers/ahci/src/driver/cmd_ctl.rs and the entries in drivers/ahci/src/hba/command.rs). Interrupt
-- vectors are handed to
-- drivers by a registry of 256 entries (Irq.antt, for `HandleRegistry` of
-- kernel/src/interrupts/vector_tables.rs and its callers in kernel/src/interrupts.rs). The
-- allocators and the memory map are shared between CPUs under a reentrant lock
-- (Util/ReentrantMutex.antt, for kernel/src/util/mutex.rs). Work is done by tasks that each CPU
-- runs from two queues of its own (Task.antt, with Queues, Run, Steal and Idle below it, for
-- kernel/src/task/kernel_scheduler.rs). Tasks sleep on timers in a queue (Task/Sleep.antt, for
-- kernel/src/task/util/sleep.rs). Values that are written once at start-up are in Util/Worm.antt, for
-- kernel/src/util/worm.rs. Files are kept in memory (Fs/Tmpfs.antt with Contents.antt
-- and Directory.antt below it, for kernel/src/fs/tmpfs.rs). Data that one owner may drop under
-- weak references are in Util/SingleArc.antt, for kernel/src/util/single_arc.rs. Sets of CPUs are
-- bit maps (Mp/Bitmap.antt, for kernel/src/mp/bitmap.rs). Keyboards and mice are reached over
-- PS/2, whose commands and answers are bytes (Ps2/Keyboard.antt, Ps2/Controller.antt and
-- Ps2/Device.antt, for keyboard.rs, controller.rs and lib.rs of lib/hid-8042/src). The kernel image
-- and programs are ELF files, of which Elf/Load.antt finds the range in memory and
-- Elf/Relocation.antt applies the relocations (load.rs and relocation.rs of lib/elfload/src).
--
-- How. An operation is a function from a state to a result and a new state. A panic is `none`, or
-- `panics` where a call may also spin; an error of the source is `err` of `Result`. Words are
-- natural numbers, and their sums and differences wrap at 2^64 as in a build without overflow
-- checks, which is how the kernel is built. Physical and virtual addresses of the crate x86_64
-- are parameters (`PhysAddrOps`, `VirtAddrOps`): it is only assumed that nothing panics that makes
-- an address of 52 bits, or a canonical one. The intrusive lists of free blocks are lists of
-- addresses: that a node is written into the block that it stands for is not modelled. The
-- superior allocator and the mapping of its page, of which only Mem/HighOrder.antt is modelled, are
-- a parameter (`Superior`). They may call the
-- fixed block allocator again, so they are given its state and leave another; it is assumed that a
-- page starts on a page boundary inside the address space.
--
-- The lock is a machine whose steps are single atomic operations, which a schedule gives to the
-- CPUs in any order. Each operation is taken to be atomic and sequentially consistent, whatever
-- the ordering it names: the store of the owner is taken to succeed, though it names `Acquire`. A
-- compare and exchange that fails spuriously is a step not taken. An interrupt of a CPU inside the
-- lock, and more than 2^64 steps, are not modelled.
--
-- The file system keeps every accessor that was made, at an address; a directory entry is a
-- serial, and a map takes the serial to the address. Each operation on a directory is taken to be
-- one step, since it holds the lock of the directory. Where a capacity is one that a `Vec` can
-- have, its allocation is taken to succeed. What a file answers that `new_file` copies is a
-- parameter.
--
-- In the scheduler a task is its id. What one poll of a future does is a parameter, a function of
-- the state, and running a task is one step; a task that another CPU runs is marked as locked. Two
-- CPUs that use the same queue at once are not modelled, nor is the loop that halts a CPU.
--
-- What the page tables make of a position in a buffer is a function that the description of the
-- buffer takes. The guard of a buffer and its borrow meet in one flag, which each of their
-- operations reads or writes once, and so each is one step.
--
-- The numbers of the relocation types are those of the elf crate, of which it is only assumed that no
-- two are the same.
--
-- The binary search of the standard library (Prelude/Search.antt) is an argument of what uses it, of
-- which just what its documentation says is assumed.
--
-- In `free` of the high order allocator the place that the standard library's binary search finds
-- is an argument, and the panic on an address that is in the list already is left out.
--
-- Fuel. Running the queues of an executor takes one round more than they have ids. Collecting the
-- bytes of a keyboard command runs on 9 rounds or more. The inner loop of `force_dealloc` runs on
-- one more than the size of the region, and the loops of `drain` on a number of rounds; the
-- theorems show that this much is enough. Describing a buffer takes one round more than it has
-- pages, and cutting a region one more than it has bytes.
--
-- The shared helpers are in Prelude.antt and below it. Proofs stand in the child modules of a
-- part, tests and worked examples in its module Tests.
pub mod Ahci
pub mod Elf
pub mod Fs
pub mod Irq
pub mod Mem
pub mod Mp
pub mod Prelude
pub mod Ps2
pub mod Task
pub mod Util
