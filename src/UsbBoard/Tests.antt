-- ===== src/UsbBoard/Tests.antt =====
-- The theorems on the USB device's board at a nine byte descriptor.
use protocol_emulator.Base.{
  ℕ, zero, suc, ◌≡◌, refl, ap, some, List, [], ◌∷◌, arith, get_or, take, length,
}
use protocol_emulator.Base.Slices.{pieces}
use protocol_emulator.Host.Config.{default_config}
use protocol_emulator.Host.Device.{Device, device_port, get_all}
use protocol_emulator.Host.Memory.{Memory, program_memory}
use protocol_emulator.UsbBoard.Packets.{data1, tag_data0, reversed, word_bytes, words_bytes}
use protocol_emulator.UsbBoard.State.{Board, new_board}
use protocol_emulator.UsbBoard.Board.{feed_all, queue, report, answer_chunks, descriptor}
use protocol_emulator.UsbBoard.Queue.{Inv}
use protocol_emulator.UsbBoard.Reach.{started, reported, written, reachable-Inv}
use protocol_emulator.UsbBoard.Chunks.{host_reads}
use protocol_emulator.UsbBoard.Control.{Idle, replies_acked, in_turn, get_descriptor_lem}
use protocol_emulator.UsbBoard.Address.{Moves, set_address_lem}
use protocol_emulator.UsbBoard.Service.{last_of, Image, words, patched, write_window, drain}
use protocol_emulator.UsbBoard.Reload.{IsPatched, reload_lem}
use protocol_emulator.UsbBoard.Drain.{Returns, returns, IsExact, Drained, drain_lem}

abbrev nine : List ℕ
nine = 9 ∷ 2 ∷ 3 ∷ 4 ∷ 5 ∷ 6 ∷ 7 ∷ 8 ∷ 1 ∷ []

abbrev board : Board
board = new_board ((1, nine) ∷ [])

board-Idle : Idle board
unfolding new_board
board-Idle = record { waiting = refl; unqueued = refl; unreplied = refl; unreported = refl }

-- GET_DESCRIPTOR of type 1 and nine bytes.
abbrev get_nine : List ℕ
get_nine = 0x80 ∷ 6 ∷ 0 ∷ 1 ∷ 0 ∷ 0 ∷ 9 ∷ 0 ∷ []

get_descriptor_example :
    (replies_acked 2 (feed_all (tag_data0 ∷ 0x160 ∷ 0x80 ∷ 0 ∷ 0x9000 ∷ 0x55dd ∷ 0 ∷ []) board)
      ≡ in_turn data1 (take 8 nine ∷ (1 ∷ []) ∷ []))
    × (host_reads 9 (take 8 nine ∷ (1 ∷ []) ∷ []) ≡ some nine)
unfolding words_bytes word_bytes reversed answer_chunks new_board descriptor pieces
get_descriptor_example =
    get_descriptor_lem board 0x160 0x80 0 0x9000 0x55dd 0 get_nine (take 8 nine ∷ (1 ∷ []) ∷ [])
      board-Idle refl refl refl

abbrev set_seven : List ℕ
set_seven = 0 ∷ 5 ∷ 7 ∷ 0 ∷ 0 ∷ 0 ∷ 0 ∷ 0 ∷ []

set_address_example :
    Moves 0 (some 0) 7 (feed_all (tag_data0 ∷ 0xa0 ∷ 0xe000 ∷ 0 ∷ 0 ∷ 0x55dd ∷ 0 ∷ []) board)
unfolding words_bytes word_bytes reversed new_board
set_address_example = set_address_lem board 0xa0 0xe000 0 0 0x55dd 0 set_seven board-Idle refl refl

-- A report, written to the core.
reachable-Inv_example : Inv 1 (record (report (3 ∷ []) board) { replies = [] })
unfolding report queue new_board
reachable-Inv_example =
    reachable-Inv 1 (record (report (3 ∷ []) board) { replies = [] })
      (written _ [] refl (reported (3 ∷ []) refl (started ((1, nine) ∷ []))))

-- Two of five words differ, by the address.
abbrev image : Image
image = record {
  config = default_config;
  base_words = 10 ∷ 11 ∷ 12 ∷ 13 ∷ 14 ∷ [];
  certificate = [];
  patch_at = 1 ∷ 3 ∷ [];
  patches = (11 ∷ 13 ∷ []) ∷ (21 ∷ 23 ∷ []) ∷ (31 ∷ 33 ∷ []) ∷ [];
  bit_period = 32;
}

image-IsPatched : IsPatched image
unfolding last_of
image-IsPatched = record {
  rising = omega arith;
  inside = omega arith;
  between = ((omega arith, omega arith), ((omega arith, omega arith), tt));
}

abbrev loaded : Memory
loaded = record { pointer = 9; cell = λ i. get_or (10 ∷ 21 ∷ 12 ∷ 23 ∷ 14 ∷ []) i 0 }

reload_lem_example :
    (write_window (device_port program_memory) image 2 loaded).1.cell 3
    ≡ get_or (10 ∷ 31 ∷ 12 ∷ 33 ∷ 14 ∷ []) 3 0
unfolding words patched
reload_lem_example =
    reload_lem image 1 2 3 (10 ∷ 21 ∷ 12 ∷ 23 ∷ 14 ∷ []) (10 ∷ 31 ∷ 12 ∷ 33 ∷ 14 ∷ []) loaded
      image-IsPatched refl refl refl

-- A device that never has a word.
abbrev silent : Device
silent = record { State = ℕ; put = λ reg w s. s; get = λ reg s. (1, suc s) }

silent-exact : (reg count s : ℕ) → length (get_all silent reg count s).0 ≡ count
silent-exact reg zero s = refl
silent-exact reg (suc count) s = ap suc (silent-exact reg count (suc s))

silent-IsExact : IsExact (device_port silent)
silent-IsExact reg count s = returns (silent-exact reg count s)

drain_lem_example :
    Returns (Drained (device_port silent) silent-IsExact) (drain (device_port silent) 400 0)
drain_lem_example = drain_lem (device_port silent) silent-IsExact 400 0 (omega arith)
