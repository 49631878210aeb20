-- ===== src/Util.antt =====
-- kernel/src/util: locks.
pub mod ReentrantMutex
pub mod SingleArc
pub mod Worm
