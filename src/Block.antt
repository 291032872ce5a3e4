-- ===== src/Block.antt =====
-- src/block: partitions of a disk.
mod Tests
pub mod Gpt
