-- ===== src/UsbBoard/Service.antt =====
-- python/usb_board.py: `write_certificate`, `load`, `drain` and `service`, over a port; and `words`
-- of python/usb_device_firmware.py, whose tables are an image here.
use protocol_emulator.Base.{
  ℕ, zero, suc, ◌+◌, ◌-◌, true, false, ◌&&◌, Option, none, some, List, [], ◌∷◌, ◌++◌, bit_and,
  length, get_elem?, get_or, set, take, drop, ltb, leb, ◌==◌, if◌then◌else◌, M, pure, raise, ◌>>=◌,
  ◌>>◌, index_error, out_of_fuel,
}
use protocol_emulator.Base.Bits.{shr}
use protocol_emulator.Host.Port.{Port}
use protocol_emulator.Host.Registers.{status_reg, program_addr, program_reg}
use protocol_emulator.Host.Config.{Config}
use protocol_emulator.Host.Methods.{
  read_one, stop, flush, configure, load_data, check, push, pop, start,
}
use protocol_emulator.Host.Methods
use protocol_emulator.UsbBoard.Packets.{quiet, drain_limit}
use protocol_emulator.UsbBoard.State.{Board}
use protocol_emulator.UsbBoard.Board.{feed_all, flushed}

-- The tables of usb_device_firmware.py: a program, and per address the words that differ from it.
pub record Image : Type 0 where
  pub config : Config
  pub base_words : List ℕ
  pub certificate : List ℕ
  pub patch_at : List ℕ
  pub patches : List (List ℕ)
  pub bit_period : ℕ

-- `for at, word in zip(...): program[at - first] = word`
unfoldable pub patched : ℕ → List ℕ → List ℕ → List ℕ → List ℕ
patched first [] patch program = program
patched first (at ∷ ats) [] program = program
patched first (at ∷ ats) (word ∷ patch) program =
    patched first ats patch (set program (at - first) word)

-- `words(address)`; an address without a patch is an `IndexError`.
unfoldable pub words : Image → ℕ → Option (List ℕ)
unfolding patched
words image address = elim (get_elem? image.patches address) [
  | none ↦ none
  | some patch ↦ some (patched 0 image.patch_at patch image.base_words)
]

-- `xs[-1]`
unfoldable pub last_of : List ℕ → ℕ
last_of [] = 0
last_of (x ∷ []) = x
last_of (_ ∷ y ∷ xs) = last_of (y ∷ xs)

-- `PATCH_AT[0]`, and the words from there to the last that differs. PATCH_AT rises and is not empty.
unfoldable pub window : Image → ℕ → Option (ℕ × List ℕ)
unfolding patched last_of
window image address =
    let first = get_or image.patch_at 0 0 in
    elim (get_elem? image.patches address) [
      | none ↦ none
      | some patch ↦ some (
        first,
        patched first image.patch_at patch
            (drop first (take (suc (last_of image.patch_at)) image.base_words)),
      )
    ]

abbrev pub or_index_error : {S A : Type 0} → Option A → M S A
or_index_error none = raise index_error
or_index_error (some a) = pure a

abbrev certificate_base : ℕ
certificate_base = 0

module _ (P : Port) where
  open P use {State, write, read}

  pub write_certificate : Image → M State (Unit {0})
  write_certificate image = load_data P image.certificate certificate_base

  -- What `load` does behind the words: the check, the bit period and the start.
  unfoldable pub check_and_start : ℕ → Image → M State (Unit {0})
  check_and_start fuel image = do
    check P fuel certificate_base (some image.bit_period) true false
    push P (image.bit_period ∷ [])
    start P

  -- The words are worked out before the stop.
  unfoldable pub load_all : Image → ℕ → M State (Unit {0})
  unfolding words
  load_all image address = do
    program ← or_index_error (words image address)
    stop P
    flush P
    configure P image.config
    Methods.load P program 0

  unfoldable pub write_part : ℕ × List ℕ → M State (Unit {0})
  write_part (first, part) = do
    stop P
    flush P
    write program_addr (first ∷ [])
    write program_reg part

  unfoldable pub write_window : Image → ℕ → M State (Unit {0})
  unfolding write_part
  write_window image address = or_index_error (window image address) >>= write_part

  unfoldable pub halt : M State (Unit {0})
  halt = stop P >> flush P

  unfoldable pub load : ℕ → Image → ℕ → Option ℕ → M State (Unit {0})
  unfolding load_all write_window halt check_and_start
  load fuel image address loaded =
      elim loaded [
        | none ↦ load_all image address
        | some old ↦ if old == address then halt else write_window image address
      ]
      >> check_and_start fuel image

  -- A turn of `drain`, by the level that the status `s` has, and what it goes on with.
  unfoldable pub drain_turn :
      (ℕ → List ℕ → ℕ → M State (List ℕ × ℕ)) → ℕ → List ℕ → ℕ → ℕ → M State (List ℕ × ℕ)
  drain_turn next idle found s zero = next (suc idle) found s
  drain_turn next idle found s (suc level) = pop P (suc level) >>= λ more. next 0 (found ++ more) s

  -- The loop of `drain`, of a host without a native one.
  unfoldable pub drain_from : ℕ → ℕ → List ℕ → ℕ → M State (List ℕ × ℕ)
  unfolding read_one drain_turn
  drain_from zero idle found status = raise out_of_fuel
  drain_from (suc fuel) idle found status =
      elim (ltb idle quiet && ltb (length found) drain_limit) [
        | false ↦ pure (found, status)
        | true ↦ read_one P status_reg >>= λ s.
            drain_turn (drain_from fuel) idle found s (bit_and (shr s 10) 15)
      ]

  unfoldable pub drain : ℕ → M State (List ℕ × ℕ)
  unfolding drain_from
  drain fuel = drain_from fuel 0 [] 0

  -- The branches of `service` behind the feeding; gives the board.
  unfoldable pub serve_board : ℕ → Image → ℕ → ℕ → Board → M State Board
  unfolding load
  serve_board fuel image fifo_depth status b = elim b.reload [
    | some address ↦ do
      load fuel image address (if bit_and status 1 == 0 then b.loaded else none)
      pure (flushed (record b { reload = none; loaded = some address }))
    | none ↦ elim b.replies [
      | [] ↦ pure b
      | reply ∷ replies ↦
          if leb (bit_and (shr status 6) 15 + length reply) fifo_depth
          then push P reply >> pure (record b { replies = replies })
          else pure b
    ]
  ]

  -- The status, and the board after it.
  pub service : ℕ → Image → ℕ → Board → M State (ℕ × Board)
  unfolding drain serve_board
  service fuel image fifo_depth b = do
    found ← drain fuel
    b' ← serve_board fuel image fifo_depth found.1 (feed_all found.0 b)
    pure (found.1, b')
