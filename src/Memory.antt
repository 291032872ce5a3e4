-- ===== src/Memory.antt =====
-- src/memory: the frame allocator, its construction from the firmware's memory map, and the handles
-- that own frames.
pub mod Bits
pub mod Bitmap
pub mod Allocator
pub mod Init
mod Tests
