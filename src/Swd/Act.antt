-- ===== src/Swd/Act.antt =====
-- python/demo_swd.py: `act`, with the registers of the debug port. What only logs is left out.
use protocol_emulator.Base.{
  ℕ, Bool, true, false, ◌&&◌, not, [], ◌∷◌, bit_and, ◌==◌, M, pure, ◌>>=◌, ◌>>◌,
}
use protocol_emulator.Base.Bits.{shr}
use protocol_emulator.Host.Port.{Port}
use protocol_emulator.Bench.{found_faults}
use protocol_emulator.Swd.{ack_ok, Reading, at_index, send, wake, select, write, read_until}

abbrev core0 : ℕ
core0 = 0x01002927

abbrev core1 : ℕ
core1 = 0x11002927

abbrev nobody : ℕ
nobody = 0x21002927

abbrev dpidr : ℕ
dpidr = 0x0bc12477

abbrev abort : ℕ
abort = 0x0

abbrev ctrl_stat : ℕ
ctrl_stat = 0x4

abbrev select_address : ℕ
select_address = 0x8

abbrev rdbuff : ℕ
rdbuff = 0xc

abbrev clear_sticky : ℕ
clear_sticky = 0x1c

abbrev power_up : ℕ
power_up = 0x50000000

abbrev powered_bits : ℕ
powered_bits = 0xa0000000

module _ (P : Port) where
  open P use {State}

  abbrev is_core : Reading → Bool
  is_core r = (r.ack == ack_ok) && ((r.value == dpidr) && r.good)

  -- The powering up; whether it worked.
  power : M State Bool
  power = do
    clear ← write P 0 abort clear_sticky
    up ← write P 0 ctrl_stat power_up
    ctrl ← read_until P 0 ctrl_stat (λ v. bit_and v powered_bits == powered_bits)
    pure (
        (clear == up)
        && ((up == ctrl.ack)
            && ((ctrl.ack == ack_ok) && (bit_and ctrl.value powered_bits == powered_bits))))

  -- Whether access port 0 is an Arm MEM-AP.
  access_port : M State Bool
  access_port = do
    selected ← write P 0 select_address 0xf0
    first ← read_until P 1 0xc (λ _. true)
    idr ← read_until P 0 rdbuff (λ _. true)
    pure (
        (first.ack == idr.ack)
        && ((idr.ack == ack_ok)
            && (idr.good
                && ((bit_and (shr idr.value 17) 0x7ff == 0x23b)
                    && (bit_and (shr idr.value 13) 0xf == 8)))))

  -- What follows once core 0 has answered.
  the_rest : Bool → M State Bool
  the_rest is_core0 = do
    powered ← power
    ap ← access_port
    back ← write P 0 select_address 0
    off ← write P 0 ctrl_stat 0
    one ← select P core1
    none_there ← select P nobody
    zero_again ← select P core0
    found ← found_faults P
    pure (
        is_core0
        && (powered
            && (ap
                && (is_core one
                    && (not (none_there.ack == ack_ok) && (is_core zero_again && (found == 0)))))))

  pub act : ℕ → M State Bool
  act half = do
    level ← send P (half ∷ []) 1
    idle ← at_index P level 0
    elim (idle == 1) [
      | false ↦ pure false
      | true ↦ wake P >> select P core0 >>= λ r. elim (r.ack == ack_ok) [
        | false ↦ pure false
        | true ↦ the_rest (is_core r)
      ]
    ]
