-- ===== src/Media.antt =====
-- Whole media: who owns a block backend, and the copy from one to another.
pub mod Arbiter
pub mod Copier
mod Tests
