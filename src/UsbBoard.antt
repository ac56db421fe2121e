-- ===== src/UsbBoard.antt =====
-- The demo board's half of the low speed USB device: python/usb_board.py.
pub mod Packets
pub mod State
pub mod Board
pub mod Queue
pub mod Turns
pub mod Reach
pub mod Chunks
pub mod Control
pub mod Address
pub mod Wire
pub mod Service
pub mod Reload
pub mod Drain
pub mod Tests
