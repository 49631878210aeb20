-- ===== src/Mp.antt =====
-- kernel/src/mp: sets of CPUs.
pub mod Bitmap
