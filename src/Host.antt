-- ===== src/Host.antt =====
-- The host's side of the chip's SPI port: python/protocol_emulator.py.
pub mod Registers
pub mod Config
pub mod Port
pub mod Status
pub mod Methods
pub mod Device
pub mod Framing
pub mod Memory
pub mod Clock
pub mod Checker
pub mod Stamps
pub mod Fifo
pub mod Tests
