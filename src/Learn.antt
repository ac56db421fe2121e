-- ===== src/Learn.antt =====
-- python/learn_record.py: the recording of edges that each engine stamps with its own clock. What only
-- logs, the progress in AT and the collection of garbage are left out.
pub mod Record
pub mod Clock
pub mod Poll
pub mod Lines
pub mod Turns
pub mod Ends
pub mod Tests
use protocol_emulator.Base.{
  ℕ, zero, suc, ◌+◌, ◌-◌, ◌*◌, ◌%◌, ◌/◌, ◌<◌, Bool, true, false, ◌&&◌, not, List, [], ◌∷◌, ◌++◌,
  map, Option, none, some, bit_and, bit_or, length, get_or, get_elem?, replicate, take, drop, int,
  ltb, ◌==◌, if◌then◌else◌, M, pure, raise, ◌>>=◌, ◌>>◌, index_error, out_of_fuel, max, Result, ok,
  err, memory_error,
}
use protocol_emulator.Base.Bits.{shr, shl}
use protocol_emulator.Base.Int.{ℤ, pos, negsuc, pos_part, neg_part, sub_ℕ, add_ℕ, ltb_ℤ, shr_ℤ}
use protocol_emulator.Host.Port.{Transport, Port, host, read_frame}
use protocol_emulator.Host.Registers.{status_reg, rx_reg, now_lo, select_reg}
use protocol_emulator.Host.Config.{Config, default_config}
use protocol_emulator.Host.Methods.{select, stop, flush, configure, load, certify, start, read_one}

abbrev pub clock_hz : ℕ
clock_hz = 48000000

abbrev pub sync_cycles : ℕ
sync_cycles = 2

abbrev pub late_us : ℕ
late_us = 1000

abbrev pub most : ℕ
most = 3000

-- What record.json says of an engine.
pub record Logger : Type 0 where
  pub engine : ℕ
  pub config : Config
  pub words : List ℕ
  pub certificate : List ℕ
  pub sync : Bool

-- The Pico: its SPI master, and `time.ticks_ms` and `time.ticks_us`, which wrap at 2 ** 30.
pub record Pico : Type 1 where
  pub State : Type 0
  pub transfer : List ℕ → State → List ℕ × State
  pub ticks_ms : State → ℕ × State
  pub ticks_us : State → ℕ × State

-- `time.ticks_diff`
unfoldable pub ticks_diff : ℕ → ℕ → ℤ
ticks_diff a b = sub_ℕ ((a + 1610612736 - b) % 1073741824) 536870912

-- `SELECTS`
unfoldable pub select_frame : ℕ → List ℕ
select_frame engine = bit_or 0x80 select_reg ∷ 0 ∷ engine ∷ []

-- `rx_in[i] << 8 | rx_in[i + 1]`, for each pair of bytes behind the first.
unfoldable pub pairs : List ℕ → List ℕ
pairs (high ∷ low ∷ bytes) = bit_or (shl high 8) low ∷ pairs bytes
pairs _ = []

-- One line's arrays, up to its count, and what the loop keeps of its clock.
pub record Line : Type 0 where
  pub engine : ℕ
  pub words : List ℕ
  pub times : List ℤ
  pub last : ℕ
  pub clock : ℕ
  pub then_us : ℕ

-- The stamps of a drain that still have room.
abbrev pub kept : Line → List ℕ → List ℕ
kept l words = take (most - length l.words) words

-- The whole turns of the clock since the last drain, from the microseconds between.
unfoldable pub wraps : ℤ → ℕ → ℤ
wraps gap low =
    let scale = clock_hz / 1000000 in
    shr_ℤ (sub_ℕ (pos_part gap * scale + 32768) (neg_part gap * scale + low)) 16

unfoldable pub advance : ℤ → ℕ → ℕ → ℕ
unfolding wraps
advance gap last now =
    let low = (now + 65536 - last) % 65536 in
    let n = wraps gap low in low + (if ltb_ℤ (pos 0) n then shl (pos_part n) 16 else 0)

unfoldable pub stamp_time : ℕ → ℕ → ℕ → ℤ
stamp_time clock now word = sub_ℕ clock ((now + 65536 - word) % 65536)

-- The ints that MicroPython has on a Pico without an allocation: those of 31 bits.
abbrev pub small_ints : ℕ
small_ints = 1073741824

abbrev pub is_small : ℤ → Bool
is_small x = ltb (pos_part x) small_ints && not (ltb small_ints (neg_part x))

-- Whether a turn makes no int that is not small: `gap * 48`, the sums that it is part of, and the clock. All
-- others of the turn are between these, and so are the times, which then fit their arrays of 32 bits too.
unfoldable pub all_small : ℤ → ℕ → ℕ → Bool
all_small gap low clock' =
    let scale = clock_hz / 1000000 in
    let up = pos_part gap * scale in
    let down = neg_part gap * scale in
    (is_small (sub_ℕ up down) && is_small (sub_ℕ up (down + low)))
    && (is_small (sub_ℕ (up + 32768) (down + low)) && is_small (pos clock'))

-- What the loop does with a drain's words, the clock read behind them, and the microseconds. The heap is
-- locked, so an int that is not small raises `MemoryError`.
unfoldable pub take_drain : List ℕ → ℕ → ℕ → Line → Result Line
unfolding advance stamp_time
take_drain words now t l =
    let gap = ticks_diff t l.then_us in
    let clock' = l.clock + advance gap l.last now in
    if all_small gap ((now + 65536 - l.last) % 65536) clock'
    then ok (record l {
      words = l.words ++ kept l words;
      times = l.times ++ map (stamp_time clock' now) (kept l words);
      last = now;
      clock = clock';
      then_us = t;
    })
    else err memory_error

-- `count > before and gap > LATE_US`
unfoldable pub is_late : List ℕ → ℕ → Line → Bool
is_late words t l = ltb 0 (length (kept l words)) && ltb_ℤ (pos late_us) (ticks_diff t l.then_us)

-- Selecting the engine, its status, its waiting words, and the low half of its clock: the words and
-- the clock. The buffers are as long as the frames.
module _ (P : Pico) where
  open P use {State, transfer}

  unfoldable pub pop_level : ℕ → State → List ℕ × State
  unfolding pairs read_frame
  pop_level level s = elim (level == 0) [
    | true ↦ ([], s)
    | false ↦ let (reply, t) = transfer (read_frame rx_reg level) s in (pairs (drop 1 reply), t)
  ]

  unfoldable pub poll : ℕ → State → (List ℕ × ℕ) × State
  unfolding pop_level select_frame pairs read_frame
  poll engine s =
      let (_, s1) = transfer (select_frame engine) s in
      let (status, s2) = transfer (read_frame status_reg 1) s1 in
      let (words, s3) = pop_level (bit_and (shr (get_or status 1 0) 2) 15) s2 in
      let (clock, s4) = transfer (read_frame now_lo 1) s3 in
      ((words, get_or (pairs (drop 1 clock)) 0 0), s4)
