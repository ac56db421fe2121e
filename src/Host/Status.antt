-- ===== src/Host/Status.antt =====
-- python/protocol_emulator.py: the fields of the status words.
use protocol_emulator.Base.{ℕ, bit_and}
use protocol_emulator.Base.Bits.{shr}

-- `Host.status()`, a field for each key.
pub record Status : Type 0 where
  pub halted : ℕ
  pub irq : ℕ
  pub underflow : ℕ
  pub overflow : ℕ
  pub missed_deadline : ℕ
  pub decode : ℕ
  pub tx_level : ℕ
  pub rx_level : ℕ
  pub assumption : ℕ
  pub other_irq : ℕ

unfoldable pub status_fields : ℕ → Status
status_fields s = record {
  halted = bit_and s 1;
  irq = bit_and (shr s 1) 1;
  underflow = bit_and (shr s 2) 1;
  overflow = bit_and (shr s 3) 1;
  missed_deadline = bit_and (shr s 4) 1;
  decode = bit_and (shr s 5) 1;
  tx_level = bit_and (shr s 6) 15;
  rx_level = bit_and (shr s 10) 15;
  assumption = bit_and (shr s 14) 1;
  other_irq = bit_and (shr s 15) 1;
}

-- `frame_fields`, of FRAME_STATUS.
pub record FrameStatus : Type 0 where
  pub words : ℕ
  pub finished : ℕ
  pub fcs_ok : ℕ
  pub half : ℕ
  pub dropped : ℕ
  pub receiving : ℕ
  pub armed : ℕ

unfoldable pub frame_fields : ℕ → FrameStatus
frame_fields s = record {
  words = bit_and s 0x3ff;
  finished = bit_and (shr s 10) 1;
  fcs_ok = bit_and (shr s 11) 1;
  half = bit_and (shr s 12) 1;
  dropped = bit_and (shr s 13) 1;
  receiving = bit_and (shr s 14) 1;
  armed = bit_and (shr s 15) 1;
}

pub record UsbStatus : Type 0 where
  pub crc5_ok : ℕ
  pub crc16_ok : ℕ
  pub stuff_error : ℕ
  pub aligned : ℕ

unfoldable pub usb_fields : ℕ → UsbStatus
usb_fields s = record {
  crc5_ok = bit_and s 1;
  crc16_ok = bit_and (shr s 1) 1;
  stuff_error = bit_and (shr s 2) 1;
  aligned = bit_and (shr s 3) 1;
}
