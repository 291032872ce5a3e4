-- ===== src/Util.antt =====
-- src/util: the spinlock, the dense map and the queue of two buffers, that the kernel's managers share.
mod Tests
pub mod SpinLock
pub mod DenseMap
pub mod CriticalQueue
