-- ===== src/Carrier/Buses.antt =====
-- python/carrier_pins.py: SPI, I2C, 1-Wire and SWD on `Pins`, a step a frame.
use protocol_emulator.Base.{
  ℕ, zero, suc, ◌+◌, ◌*◌, Bool, true, false, Option, none, some, List, [], ◌∷◌, ◌++◌, bit_and,
  bit_or, length, take, drop, get_or, replicate, ◌==◌, if◌then◌else◌, M, pure, raise, ◌>>=◌, ◌>>◌,
  no_sample,
}
use protocol_emulator.Base.Bits.{shr, shl}
use protocol_emulator.Carrier.{Bus, Pins, put, take_slot, level_of, wait}

abbrev sda : ℕ
sda = 33

abbrev scl : ℕ
scl = 35

abbrev dq : ℕ
dq = 37

abbrev flash_cs : ℕ
flash_cs = 28

abbrev flash_clk : ℕ
flash_clk = 26

abbrev flash_di : ℕ
flash_di = 22

abbrev flash_do : ℕ
flash_do = 3

abbrev swclk : ℕ
swclk = 12

abbrev swdio : ℕ
swdio = 36

-- `[(w >> i) & 1 for i in range(count)]`, from i on.
bits_from : ℕ → ℕ → ℕ → List ℕ
bits_from zero i w = []
bits_from (suc count) i w = bit_and (shr w i) 1 ∷ bits_from count (suc i) w

-- `words` in `swd_dpidr`
words_bits : List ℕ → List ℕ
words_bits [] = []
words_bits (w ∷ ws) = bits_from 16 0 w ++ words_bits ws

sum_of : List ℕ → ℕ
sum_of [] = 0
sum_of (b ∷ bits) = b + sum_of bits

-- `sum(b << i for i, b in enumerate(bits))`
value_of : List ℕ → ℕ
value_of [] = 0
value_of (b ∷ bits) = b + 2 * value_of bits

module _ (B : Bus) where
  -- A byte of `spi`, from bit 7 - i on.
  spi_bits : ℕ → ℕ → ℕ → M (Pins B) ℕ
  spi_bits zero byte value = pure value
  spi_bits (suc left) byte value = do
    a ← put B ((flash_di, some (bit_and (shr byte left) 1)) ∷ (flash_clk, some 0) ∷ [])
    b ← put B ((flash_clk, some 1) ∷ [])
    levels ← put B ((flash_clk, some 0) ∷ [])
    bit ← level_of B levels flash_do
    spi_bits left byte (bit_or (shl value 1) bit)

  spi_bytes : List ℕ → List ℕ → M (Pins B) (List ℕ)
  spi_bytes [] got = pure got
  spi_bytes (byte ∷ bytes) got = do value ← spi_bits 8 byte 0; spi_bytes bytes (got ++ value ∷ [])

  pub spi : List ℕ → ℕ → M (Pins B) (List ℕ)
  spi bytes read = do
    begun ← put B ((flash_cs, some 0) ∷ (flash_clk, some 0) ∷ [])
    got ← spi_bytes (bytes ++ replicate read 0) []
    ended ← put B ((flash_cs, some 1) ∷ (flash_di, none) ∷ [])
    pure (drop (length bytes) got)

  pub jedec : M (Pins B) (List ℕ)
  jedec = do woken ← spi (0xab ∷ []) 0; waited ← wait B 5; spi (0x9f ∷ []) 3

  i2c_bits : ℕ → ℕ → M (Pins B) (Unit {0})
  i2c_bits zero byte = pure tt
  i2c_bits (suc left) byte = do
    a ← put B ((sda, if bit_and (shr byte left) 1 == 0 then some 0 else none) ∷ [])
    b ← put B ((scl, none) ∷ [])
    c ← put B ((scl, some 0) ∷ [])
    i2c_bits left byte

  pub i2c_probe : ℕ → M (Pins B) Bool
  i2c_probe address = do
    a ← put B ((sda, none) ∷ (scl, none) ∷ [])
    b ← put B ((sda, some 0) ∷ [])
    c ← put B ((scl, some 0) ∷ [])
    sent ← i2c_bits 8 (shl address 1)
    d ← put B ((sda, none) ∷ [])
    e ← put B ((scl, none) ∷ [])
    levels ← put B ((scl, some 0) ∷ [])
    bit ← level_of B levels sda
    f ← put B ((sda, some 0) ∷ [])
    g ← put B ((scl, none) ∷ [])
    h ← put B ((sda, none) ∷ [])
    pure (bit == 0)

  -- `pulses`: one pulse, a header's pulses, a train, and the trains.
  pulse_times : ℕ → ℕ → ℕ → M (Pins B) (Unit {0})
  pulse_times header level zero = pure tt
  pulse_times header level (suc count) = do
    pulse ← take_slot B header level 20 0 40
    pulse_times header level count

  train : List (ℕ × ℕ × ℕ) → M (Pins B) (Unit {0})
  train [] = pure tt
  train ((header, count, level) ∷ plan) = pulse_times header level count >> train plan

  later_trains : List (ℕ × ℕ × ℕ) → ℕ → ℕ → M (Pins B) (Unit {0})
  later_trains plan gap_us zero = pure tt
  later_trains plan gap_us (suc trains) = do
    waited ← wait B gap_us
    sent ← train plan
    later_trains plan gap_us trains

  -- No wait comes before the first train.
  pub pulses : List (ℕ × ℕ × ℕ) → ℕ → ℕ → M (Pins B) (Unit {0})
  pulses plan zero gap_us = pure tt
  pulses plan (suc trains) gap_us = train plan >> later_trains plan gap_us trains

  -- Whether the sample is 0.
  pub one_wire_reset : M (Pins B) Bool
  one_wire_reset = do
    sample ← take_slot B dq 0 480 550 410
    pure (elim sample [ none ↦ false | some level ↦ level == 0 ])

  write_bits : ℕ → ℕ → ℕ → M (Pins B) (Unit {0})
  write_bits zero i byte = pure tt
  write_bits (suc left) i byte = do
    written ← take_slot B dq 0 (if bit_and (shr byte i) 1 == 0 then 60 else 6) 61 5
    write_bits left (suc i) byte

  pub one_wire_write : ℕ → M (Pins B) (Unit {0})
  one_wire_write byte = write_bits 8 0 byte

  -- A sample that was not taken is a `TypeError`.
  read_bits : ℕ → ℕ → ℕ → M (Pins B) ℕ
  read_bits zero i sum = pure sum
  read_bits (suc left) i sum = do
    sample ← take_slot B dq 0 2 12 50
    level ← elim sample [ none ↦ raise no_sample | some level ↦ pure level ]
    read_bits left (suc i) (sum + shl level i)

  pub one_wire_read : M (Pins B) ℕ
  one_wire_read = read_bits 8 0 0

  read_bytes : ℕ → List ℕ → M (Pins B) (List ℕ)
  read_bytes zero got = pure got
  read_bytes (suc left) got = do byte ← one_wire_read; read_bytes left (got ++ byte ∷ [])

  -- None where nobody is present.
  pub read_rom : M (Pins B) (Option (List ℕ))
  read_rom = do
    released ← put B ((dq, none) ∷ [])
    present ← one_wire_reset
    elim present [
      | false ↦ pure none
      | true ↦ one_wire_write 0x33 >> read_bytes 8 [] >>= λ rom. pure (some rom)
    ]

  pub swd_write : List ℕ → M (Pins B) (Unit {0})
  swd_write [] = pure tt
  swd_write (b ∷ bits) = do
    low ← put B ((swdio, some b) ∷ (swclk, some 0) ∷ [])
    high ← put B ((swclk, some 1) ∷ [])
    swd_write bits

  clocked : ℕ → List ℕ → M (Pins B) (List ℕ)
  clocked zero got = pure got
  clocked (suc n) got = do
    high ← put B ((swclk, some 1) ∷ [])
    levels ← put B ((swclk, some 0) ∷ [])
    bit ← level_of B levels swdio
    clocked n (got ++ bit ∷ [])

  pub swd_read : ℕ → M (Pins B) (List ℕ)
  swd_read n = do released ← put B ((swdio, none) ∷ (swclk, some 0) ∷ []); clocked n []

  -- DPIDR's ACK, value and parity bit.
  pub swd_dpidr : List ℕ → List ℕ → ℕ → ℕ → M (Pins B) (ℕ × ℕ × ℕ)
  swd_dpidr wake line_reset targetsel target = do
    woken ← swd_write (words_bits wake ++ words_bits line_reset)
    asked ← swd_write (bits_from 8 0 targetsel)
    ignored ← swd_read 5
    selected ← swd_write (bits_from 32 0 target ++ bit_and (sum_of (bits_from 32 0 target)) 1 ∷ [])
    requested ← swd_write (1 ∷ 0 ∷ 1 ∷ 0 ∷ 0 ∷ 1 ∷ 0 ∷ 1 ∷ [])
    bits ← swd_read 36
    turned ← swd_read 1
    idled ← swd_write (replicate 8 0)
    released ← put B ((swdio, none) ∷ (swclk, some 0) ∷ [])
    pure (value_of (take 3 bits), value_of (take 32 (drop 3 bits)), get_or bits 35 0)
