-- ===== src/Usb.antt =====
-- src/usb: the rings that the kernel shares with an xHCI host controller.
mod Tests
pub mod Ring
