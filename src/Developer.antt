-- ===== src/Developer.antt =====
-- backend/developer: patches of files, and the guard on what a patch may delete.
pub mod Patcher
pub mod Scope
