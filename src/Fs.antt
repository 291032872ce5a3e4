-- ===== src/Fs.antt =====
-- src/fs: files, their handles and the cache of their pages.
mod Tests
pub mod Tmp
pub mod Fat
pub mod Handle
pub mod Cache
pub mod Open
pub mod File
