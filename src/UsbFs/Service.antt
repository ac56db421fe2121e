-- ===== src/UsbFs/Service.antt =====
-- python/usb_fs_board.py: `load`, `restart` and `service`, over a port. The firmware's tables are an
-- image.
use protocol_emulator.Base.{
  ℕ, ◌+◌, true, false, none, some, List, [], ◌∷◌, bit_and, length, leb, ◌==◌, M, pure, raise, ◌>>=◌,
  ◌>>◌, key_error,
}
use protocol_emulator.Base.Bits.{shr}
use protocol_emulator.Host.Port.{Port}
use protocol_emulator.Host.Registers.{status_reg}
use protocol_emulator.Host.Config.{Config}
use protocol_emulator.Host.Methods.{
  read_one, select, stop, flush, configure, load_line_table, load_data, check, arm_usb, push, pop,
  start,
}
use protocol_emulator.Host.Methods
use protocol_emulator.UsbFs.Packets.{in_token}
use protocol_emulator.UsbFs.Board.{Board, reset, feed_all}

-- usb_fs_device_firmware.py
pub record Image : Type 0 where
  pub config : Config
  pub words : List ℕ
  pub line_table : List ℕ

abbrev dp_pin : ℕ
dp_pin = 12

abbrev rx_base : ℕ
rx_base = 0

module _ (P : Port) where
  open P use {State}

  -- An engine of the loop of `load`.
  pub halt_engine : ℕ → M State (Unit {0})
  halt_engine engine = do select P engine; stop P; flush P

  -- Gives the board as it is reset.
  pub restart : Board → M State Board
  restart b = do stop P; flush P; push P (in_token 0 0 ∷ []); start P; pure (reset b)

  pub load : ℕ → Image → List ℕ → ℕ → Board → M State Board
  unfolding halt_engine restart
  load fuel image memory certificate_base b = do
    halt_engine 1
    halt_engine 0
    configure P image.config
    Methods.load P image.words 0
    load_line_table P image.line_table
    load_data P memory 0
    check P fuel certificate_base none false false
    arm_usb P dp_pin rx_base 0 true
    restart b

  -- The loop of `service` that hands lists to the tx fifo while there is room; gives those left.
  pub push_out : ℕ → ℕ → List (List ℕ) → M State (List (List ℕ))
  push_out depth queued [] = pure []
  push_out depth queued (words ∷ out) = elim (leb (queued + length words) depth) [
    | false ↦ pure (words ∷ out)
    | true ↦ push P words >> push_out depth (queued + length words) out
  ]

  -- The board is fed only when the fifo has words.
  pub feed_popped : ℕ → Board → M State Board
  feed_popped level b = elim (level == 0) [
    | true ↦ pure b
    | false ↦ pop P level >>= λ words. elim (feed_all words b) [
      | none ↦ raise key_error
      | some b' ↦ pure b'
    ]
  ]

  -- The status, and the board after the round.
  pub service : ℕ → Board → M State (ℕ × Board)
  unfolding read_one push_out feed_popped
  service depth b = do
    status ← read_one P status_reg
    fed ← feed_popped (bit_and (shr status 10) 15) b
    left ← push_out depth (bit_and (shr status 6) 15) fed.out
    pure (status, record fed { out = left })
