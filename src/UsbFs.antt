-- ===== src/UsbFs.antt =====
-- python/usb_fs_board.py: the board's half of the full speed USB device.
pub mod Packets
pub mod Records
pub mod Board
pub mod Keys
pub mod Places
pub mod Start
pub mod Control
pub mod Service
pub mod Tests
