-- ===== src/Carrier/Tests.antt =====
-- The theorem on a frame with a slot.
use protocol_emulator.Base.{◌≡◌, some, arith}
use protocol_emulator.Carrier.{Slot, encode}
use protocol_emulator.Carrier.Frames.{take_frame, take_frame-encode}

abbrev reset_slot : Slot
reset_slot = record { at_pin = 16; level = 0; length_us = 480; sample_us = 550 }

take_frame-encode_example :
    take_frame (encode 0x840 0x10840 (some reset_slot))
    ≡ some (record { oe = 0x840; out = 0x10840; slot = some reset_slot })
take_frame-encode_example =
    take_frame-encode 0x840 0x10840 (some reset_slot) (omega arith) (omega arith)
      (omega arith, (omega arith, (omega arith, omega arith)))
