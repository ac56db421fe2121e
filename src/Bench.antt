-- ===== src/Bench.antt =====
-- python/bench.py and the fifo half of python/pio_upstream.py: a firmware's load, and streams of
-- host words that overflow neither fifo.
pub mod Collect
pub mod Exchange
pub mod Feed
pub mod Tests
use protocol_emulator.Base.{
  ℕ, zero, suc, ◌+◌, ◌-◌, ◌≡◌, Bool, true, false, ◌&&◌, not, Option, List, [], ◌∷◌, ◌++◌, bit_and,
  length, take, drop, min, ltb, ◌==◌, if◌then◌else◌, M, pure, raise, ◌>>=◌, ◌>>◌, faulty, short,
  stuck,
}
use protocol_emulator.Base.Bits.{shr}
use protocol_emulator.Host.Port.{Port}
use protocol_emulator.Host.Registers.{status_reg, faults}
use protocol_emulator.Host.Config.{Config}
use protocol_emulator.Host.Methods.{read_one, select, stop, flush, configure, certify, push, pop}
use protocol_emulator.Host.Methods

-- `DEPTH`
abbrev pub depth : ℕ
depth = 8

-- An entry of bench_firmware.py.
pub record Firmware : Type 0 where
  pub config : Config
  pub words : List ℕ
  pub certificate : List ℕ
  pub loaded : Option ℕ
  pub floor : Bool
  pub single_edge : Bool

module _ (P : Port) where
  open P use {State}

  -- `faults(host)`
  pub found_faults : M State ℕ
  unfolding read_one
  found_faults = do s ← read_one P status_reg; pure (bit_and s faults)

  pub rx_level : M State ℕ
  unfolding read_one
  rx_level = do s ← read_one P status_reg; pure (bit_and (shr s 10) 15)

  -- `pio_upstream.tx_level`
  pub tx_level : M State ℕ
  unfolding read_one
  tx_level = do s ← read_one P status_reg; pure (bit_and (shr s 6) 15)

  -- One turn of the loop over the engines.
  pub quiesce : ℕ → M State (Unit {0})
  unfolding found_faults
  quiesce other = do
    select P other
    found ← found_faults
    if found == 0 then pure tt else raise (faulty other found)
    stop P
    flush P

  pub load : ℕ → Firmware → ℕ → M State (Unit {0})
  unfolding quiesce
  load fuel firmware engine = do
    quiesce 1
    quiesce 0
    select P engine
    configure P firmware.config
    Methods.load P firmware.words 0
    certify P fuel firmware.certificate 0 firmware.loaded firmware.single_edge firmware.floor

  -- `words[sent:sent + room]` pushed if there are words left and room; gives what is still unsent.
  pub send_some : List ℕ → ℕ → M State (List ℕ)
  send_some rest room =
      if ltb 0 (length rest) && not (room == 0)
      then (do push P (take room rest); pure (drop room rest))
      else pure rest

  -- `replies.extend(host.pop(level))` if any has arrived.
  pub collect : List ℕ → M State (List ℕ)
  unfolding rx_level
  collect replies = do
    level ← rx_level
    more ← if level == 0 then pure [] else pop P level
    pure (replies ++ more)

  -- A turn of the loop of `exchange`: `rest` are the words of `total` that are not sent yet. The
  -- room is never negative: what was sent and not answered is at most `depth`.
  pub exchange_turn : ℕ → List ℕ → List ℕ → M State (List ℕ × List ℕ)
  exchange_turn total rest replies = do
    unsent ← send_some rest (depth + length replies - (total - length rest))
    more ← collect replies
    pure (unsent, more)

  pub exchange_from : ℕ → ℕ → List ℕ → List ℕ → M State (List ℕ)
  exchange_from zero total rest replies = raise (short (length replies) total)
  exchange_from (suc polls) total rest replies = exchange_turn total rest replies >>= λ t.
      elim (length t.1 == total) [ true ↦ pure t.1 | false ↦ exchange_from polls total t.0 t.1 ]

  pub exchange : List ℕ → ℕ → M State (List ℕ)
  exchange words polls = exchange_from polls (length words) words []

  -- `if room` in `feed`; gives what is still unsent.
  pub push_room : List ℕ → ℕ → M State (List ℕ)
  push_room rest room =
      if room == 0 then pure rest else (do push P (take room rest); pure (drop room rest))

  -- The loop of `pio_upstream.feed`. `room` is never negative: a fifo holds `depth` words at most.
  pub feed_from : ℕ → ℕ → List ℕ → M State (Unit {0})
  unfolding tx_level push_room
  feed_from zero total rest = raise (short (total - length rest) total)
  feed_from (suc polls) total rest = elim (length rest == 0) [
    | true ↦ pure tt
    | false ↦ tx_level >>= λ level. push_room rest (depth - level) >>= feed_from polls total
  ]

  pub feed : List ℕ → ℕ → M State (Unit {0})
  feed words polls = feed_from polls (length words) words

  -- `pio_upstream.drain`
  pub drain : ℕ → M State (Unit {0})
  unfolding tx_level
  drain zero = raise stuck
  drain (suc polls) =
      tx_level >>= λ level. elim (level == 0) [ true ↦ pure tt | false ↦ drain polls ]
