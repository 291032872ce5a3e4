-- ===== src/Usb/Ring/Fifo.antt =====
-- src/usb/xhci/ring.hpp: a ring and its controller are a queue.
pub mod Words
pub mod Push
pub mod Rewind
pub mod Queue
pub mod Fetch
pub mod Run
