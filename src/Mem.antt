-- ===== src/Mem.antt =====
-- kernel/src/mem: the allocators of memory.
pub mod FixedBlock
pub mod PreInit
pub mod HighOrder
pub mod Dma
pub mod VirtFixup
