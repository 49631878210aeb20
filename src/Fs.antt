-- ===== src/Fs.antt =====
-- kernel/src/fs: file systems.
pub mod Tmpfs
