-- ===== src/Virtio.antt =====
-- src/virtio: the queues that the kernel shares with a virtio device.
mod Tests
pub mod Queue
