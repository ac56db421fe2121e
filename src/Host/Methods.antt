-- ===== src/Host/Methods.antt =====
-- python/protocol_emulator.py: the methods of `Host`, over any port. A loop takes fuel; what it
-- reads decides when it ends.
use protocol_emulator.Base.{
  ℕ, zero, suc, ◌-◌, Bool, true, false, not, Option, List, [], ◌∷◌, ◌++◌, bit_and, bit_or, min,
  length, replicate, int, ◌==◌, if◌then◌else◌, M, pure, raise, ◌>>=◌, ◌>>◌, refused, index_error,
  out_of_fuel,
}
use protocol_emulator.Base.Bits.{shr, shl}
use protocol_emulator.Host.Port.{Port}
use protocol_emulator.Host.Registers.{
  program_words, program_addr, program_reg, select_reg, data_addr, data_reg, control_reg,
  status_reg, check_status, reject_pc, reject_reason, line_addr, line_reg, tx_reg, rx_reg,
  frame_status, frame_base, frame_control, usb_status, stamp_mask, stamp_control, stamp_time_lo,
  stamp_time_hi, stamp_pins_lo, stamp_pins_hi, now_lo, now_hi,
}
use protocol_emulator.Host.Config.{Config, Writes, config_writes, check_writes, arm_frame_writes}
use protocol_emulator.Host.Status.{
  Status, status_fields, FrameStatus, frame_fields, UsbStatus, usb_fields,
}

-- The time and the pads of a stamp, from its four words.
unfoldable pub stamp : ℕ → ℕ → ℕ → ℕ → ℕ × ℕ
stamp hi lo pins_lo pins_hi =
    (bit_or (shl (bit_and hi 0xff) 16) lo, bit_or (shl pins_hi 16) pins_lo)

-- `[0]` of the words read.
abbrev pub first_word : {S : Type 0} → List ℕ → M S ℕ
first_word [] = raise index_error
first_word (w ∷ _) = pure w

module _ (P : Port) where
  open P use {State, write, read}

  unfoldable pub read_one : ℕ → M State ℕ
  read_one reg = do words ← read reg 1; first_word words

  unfoldable pub write_all : Writes → M State (Unit {0})
  write_all [] = pure tt
  write_all ((reg, words) ∷ writes) = write reg words >> write_all writes

  unfoldable pub select : ℕ → M State (Unit {0})
  select engine = write select_reg (engine ∷ [])

  unfoldable pub configure_from : List (ℕ × ℕ) → M State (Unit {0})
  configure_from [] = pure tt
  configure_from ((reg, word) ∷ writes) = write reg (word ∷ []) >> configure_from writes

  unfoldable pub configure : Config → M State (Unit {0})
  configure config = configure_from (config_writes config)

  unfoldable pub load : List ℕ → ℕ → M State (Unit {0})
  load words address = do
    write program_addr (address ∷ [])
    write program_reg (words ++ replicate (program_words - address - length words) 0)

  unfoldable pub load_data : List ℕ → ℕ → M State (Unit {0})
  load_data words address = do write data_addr (address ∷ []); write data_reg words

  -- `while status & 1`
  unfoldable pub settle : ℕ → ℕ → M State ℕ
  unfolding read_one
  settle zero status = raise out_of_fuel
  settle (suc fuel) status = elim (bit_and status 1 == 0) [
    | true ↦ pure status
    | false ↦ read_one check_status >>= settle fuel
  ]

  unfoldable pub reject : M State (Unit {0})
  unfolding read_one
  reject = do at ← read_one reject_pc; why ← read_one reject_reason; raise (refused at why)

  unfoldable pub check : ℕ → ℕ → Option ℕ → Bool → Bool → M State (Unit {0})
  unfolding read_one
  check fuel base loaded single_edge floor = do
    write_all (check_writes base loaded single_edge floor)
    first ← read_one check_status
    status ← settle fuel first
    if bit_and status 4 == 0 then reject else pure tt

  unfoldable pub certify : ℕ → List ℕ → ℕ → Option ℕ → Bool → Bool → M State (Unit {0})
  unfolding load_data
  certify fuel certificate base loaded single_edge floor = do
    load_data certificate base
    check fuel base loaded single_edge floor

  unfoldable pub start : M State (Unit {0})
  start = write control_reg (1 ∷ [])

  pub start_all : M State (Unit {0})
  start_all = write control_reg (0x20 ∷ [])

  unfoldable pub load_line_table : List ℕ → M State (Unit {0})
  load_line_table words = do write line_addr (0 ∷ []); write line_reg words

  unfoldable pub stop : M State (Unit {0})
  stop = write control_reg (4 ∷ [])

  unfoldable pub flush : M State (Unit {0})
  flush = write control_reg (8 ∷ [])

  pub clear_irq : M State (Unit {0})
  clear_irq = write control_reg (2 ∷ [])

  unfoldable pub push : List ℕ → M State (Unit {0})
  push words = write tx_reg words

  unfoldable pub status : M State Status
  unfolding read_one status_fields
  status = do s ← read_one status_reg; pure (status_fields s)

  abbrev pub read_if : ℕ → M State (List ℕ)
  read_if level = if level == 0 then pure [] else read rx_reg level

  unfoldable pub pop : ℕ → M State (List ℕ)
  unfolding status
  pop count = do
    s ← status
    let level = min count s.rx_level
    words ← read_if level
    pure (words ++ replicate (count - level) 0)

  pub arm_frame : ℕ → ℕ → Bool → ℕ → M State (Unit {0})
  arm_frame pin base fifty owner = write_all (arm_frame_writes pin base fifty owner)

  pub frame_status_of : M State FrameStatus
  frame_status_of = do s ← read_one frame_status; pure (frame_fields s)

  unfoldable pub arm_usb : ℕ → ℕ → ℕ → Bool → M State (Unit {0})
  arm_usb dp_pin base owner rearm = do write frame_base (base ∷ []); write frame_control (word ∷ [])
    where
      word : ℕ
      word =
          bit_or
            (bit_or (bit_or (bit_or (shl owner 8) (shl 1 7)) (shl dp_pin 2)) (shl (int rearm) 1)) 1

  pub usb_status_of : M State UsbStatus
  usb_status_of = do s ← read_one usb_status; pure (usb_fields s)

  unfoldable pub watch_edges : ℕ → ℕ → M State (Unit {0})
  watch_edges pins engine = do
    write stamp_mask (bit_and pins 0xffff ∷ [])
    write stamp_control (bit_or (shl engine 4) (shr pins 16) ∷ [])

  -- One turn of the loop of `edge_stamps`; the last read pops the stamp.
  unfoldable pub take_stamp : ℕ → M State (ℕ × ℕ)
  unfolding read_one stamp
  take_stamp hi = do
    lo ← read_one stamp_time_lo
    pins_lo ← read_one stamp_pins_lo
    pins_hi ← read_one stamp_pins_hi
    pure (stamp hi lo pins_lo pins_hi)

  -- `while (hi >> 8) & 7`, then the flag of a stamp lost.
  unfoldable pub stamps_from : ℕ → ℕ → List (ℕ × ℕ) → M State (List (ℕ × ℕ) × Bool)
  unfolding take_stamp
  stamps_from zero hi stamps = raise out_of_fuel
  stamps_from (suc fuel) hi stamps = elim (bit_and (shr hi 8) 7 == 0) [
    | true ↦ pure (stamps, not (shr hi 15 == 0))
    | false ↦ take_stamp hi >>= λ one.
        read_one stamp_time_hi >>= λ next. stamps_from fuel next (stamps ++ one ∷ [])
  ]

  unfoldable pub edge_stamps : ℕ → M State (List (ℕ × ℕ) × Bool)
  unfolding read_one
  edge_stamps fuel = do hi ← read_one stamp_time_hi; stamps_from fuel hi []

  -- `while True` in `now`, from a first read of the high half.
  unfoldable pub now_from : ℕ → ℕ → M State ℕ
  unfolding read_one
  now_from zero hi = raise out_of_fuel
  now_from (suc fuel) hi = read_one now_lo >>= λ lo. read_one now_hi >>= λ again.
      elim (again == hi) [ true ↦ pure (bit_or (shl hi 16) lo) | false ↦ now_from fuel again ]

  unfoldable pub now : ℕ → M State ℕ
  unfolding read_one
  now fuel = do hi ← read_one now_hi; now_from fuel hi
