-- ===== src/Host/Registers.antt =====
-- python/protocol_emulator.py: the register numbers.
use protocol_emulator.Base.{ℕ}

abbrev pub control_reg : ℕ
control_reg = 0x00

abbrev pub status_reg : ℕ
status_reg = 0x01

abbrev pub pc_reg : ℕ
pc_reg = 0x02

abbrev pub now_lo : ℕ
now_lo = 0x03

abbrev pub now_hi : ℕ
now_hi = 0x04

abbrev pub tx_reg : ℕ
tx_reg = 0x07

abbrev pub rx_reg : ℕ
rx_reg = 0x08

abbrev pub program_addr : ℕ
program_addr = 0x09

abbrev pub program_reg : ℕ
program_reg = 0x0A

abbrev pub select_reg : ℕ
select_reg = 0x0B

abbrev pub data_addr : ℕ
data_addr = 0x0C

abbrev pub data_reg : ℕ
data_reg = 0x0D

abbrev pub config_reg : ℕ
config_reg = 0x10

abbrev pub check_base : ℕ
check_base = 0x40

abbrev pub check_loaded : ℕ
check_loaded = 0x41

abbrev pub check_flags : ℕ
check_flags = 0x42

abbrev pub check_status : ℕ
check_status = 0x43

abbrev pub reject_pc : ℕ
reject_pc = 0x44

abbrev pub reject_reason : ℕ
reject_reason = 0x45

abbrev pub line_addr : ℕ
line_addr = 0x46

abbrev pub line_reg : ℕ
line_reg = 0x47

abbrev pub frame_control : ℕ
frame_control = 0x48

abbrev pub frame_base : ℕ
frame_base = 0x49

abbrev pub frame_status : ℕ
frame_status = 0x4A

abbrev pub usb_status : ℕ
usb_status = 0x4B

abbrev pub stamp_mask : ℕ
stamp_mask = 0x4C

abbrev pub stamp_control : ℕ
stamp_control = 0x4D

abbrev pub stamp_time_lo : ℕ
stamp_time_lo = 0x4E

abbrev pub stamp_time_hi : ℕ
stamp_time_hi = 0x4F

abbrev pub stamp_pins_lo : ℕ
stamp_pins_lo = 0x50

abbrev pub stamp_pins_hi : ℕ
stamp_pins_hi = 0x51

abbrev pub faults : ℕ
faults = 0x403C

abbrev pub program_words : ℕ
program_words = 512
