-- ===== src/Traffic/Can.antt =====
-- demo/traffic.py: the lines that sigrok reads of a CAN frame, with the CRC that the frame must have.
use protocol_emulator.Base.{
  ℕ, zero, suc, ◌+◌, ◌*◌, Bool, true, List, [], ◌∷◌, ◌++◌, bit_and, bit_xor, take, drop, ◌==◌,
  if◌then◌else◌, Result, ok, err, value_error, index_error, get_elem?, Option, none, some,
  replicate,
}
use protocol_emulator.Base.Bits.{shr, shl}
use protocol_emulator.Base.Equality.{Eq}
use protocol_emulator.Traffic.{Problem, exactly, dominant_start, dominant_end}

pub data CanLine : Type 0 where
  identifier : ℕ → CanLine
  data_length : ℕ → CanLine
  data_byte : ℕ → ℕ → CanLine
  crc_sequence : ℕ → CanLine
  ack_slot : Bool → CanLine

-- A turn of the loop of `crc15`.
unfoldable pub crc15_step : ℕ → ℕ → ℕ
crc15_step crc bit =
    let top = bit_xor (bit_and (shr crc 14) 1) bit in
    let crc' = bit_and (shl crc 1) 0x7fff in if top == 0 then crc' else bit_xor crc' 0x4599

unfoldable pub crc15_from : ℕ → List ℕ → ℕ
crc15_from crc [] = crc
crc15_from crc (bit ∷ bits) = crc15_from (crc15_step crc bit) bits

unfoldable pub crc15 : List ℕ → ℕ
unfolding crc15_from crc15_step
crc15 bits = crc15_from 0 bits

unfoldable pub bits : ℕ → ℕ → List ℕ
bits value zero = []
bits value (suc width) = bit_and (shr value width) 1 ∷ bits value width

unfoldable pub data_bits : List ℕ → List ℕ
unfolding bits
data_bits [] = []
data_bits (b ∷ data') = bits b 8 ++ data_bits data'

-- `int("".join(map(str, xs)), 2)`, which has no value for no digits.
unfoldable pub binary_from : ℕ → List ℕ → ℕ
binary_from n [] = n
binary_from n (b ∷ xs) = binary_from (2 * n + b) xs

unfoldable pub binary : List ℕ → Result ℕ
unfolding binary_from
binary [] = err value_error
binary (b ∷ xs) = ok (binary_from b xs)

infixl 5 ◌>>=◌
abbrev pub ◌>>=◌ : {A B : Type 0} → Result A → (A → Result B) → Result B
ok a >>= f = f a
err e >>= f = err e

-- The bytes from the i-th on that are read of `after`, n of them.
unfoldable pub read_bytes : ℕ → ℕ → List ℕ → Result (List ℕ)
unfolding binary
read_bytes zero i after = ok []
read_bytes (suc n) i after = do
  b ← binary (take 8 (drop (8 * i) after))
  rest ← read_bytes n (suc i) after
  ok (b ∷ rest)

unfoldable pub byte_lines : ℕ → List ℕ → List CanLine
byte_lines i [] = []
byte_lines i (b ∷ bytes) = data_byte i b ∷ byte_lines (suc i) bytes

unfoldable pub the_lines : ℕ → ℕ → List ℕ → ℕ → Bool → List CanLine
unfolding byte_lines
the_lines ident dlc bytes crc acked =
    (identifier ident ∷ data_length dlc ∷ byte_lines 0 bytes)
    ++ crc_sequence crc ∷ ack_slot acked ∷ []

-- `[0] + bits(ident, 11) + [rtr, 0, 0] + bits(dlc, 4)`
unfoldable pub header : ℕ → ℕ → ℕ → List ℕ
unfolding bits
header ident rtr dlc = (0 ∷ bits ident 11) ++ ((rtr ∷ 0 ∷ 0 ∷ []) ++ bits dlc 4)

-- What follows the DLC of a remote frame.
unfoldable pub remote_tail : ℕ → Bool → List ℕ
unfolding bits
remote_tail crc acked = (bits crc 15 ++ 1 ∷ (if acked then 0 else 1) ∷ []) ++ replicate 32 1

or_index_error : Option ℕ → Result ℕ
or_index_error none = err index_error
or_index_error (some b) = ok b

unfoldable pub can_lines : ℕ → ℕ → ℕ → List ℕ → Bool → Result (List CanLine)
unfolding crc15 data_bits header remote_tail read_bytes binary or_index_error the_lines
can_lines ident rtr dlc bytes acked =
    let crc = crc15 (header ident rtr dlc ++ data_bits bytes) in
    if rtr == 0 then ok (the_lines ident dlc bytes crc acked) else (do
      let after = remote_tail crc acked
      read ← read_bytes dlc 0 after
      crc' ← binary (take 15 (drop (8 * dlc) after))
      slot ← or_index_error (get_elem? after (8 * dlc + 16))
      ok (the_lines ident dlc read crc' (slot == 0)))

unfoldable pub all_lines : List (ℕ × ℕ × ℕ × List ℕ) → Result (List CanLine)
unfolding can_lines
all_lines [] = ok []
all_lines ((ident, rtr, dlc, bytes) ∷ frames) = do
  one ← can_lines ident rtr dlc bytes true
  rest ← all_lines frames
  ok (one ++ rest)

-- The problems of a bus that does not idle recessive, by channel 5's first and last level, which a
-- capture with no samples does not have.
unfoldable pub idle_problems : Option (ℕ × ℕ) → List (Problem CanLine)
idle_problems none = dominant_start ∷ dominant_end ∷ []
idle_problems (some (first, last)) =
    (if first == 0 then dominant_start ∷ [] else [])
    ++ (if last == 0 then dominant_end ∷ [] else [])

unfoldable pub can_bus :
    ⦃e : Eq CanLine⦄
    → ℕ × Option (ℕ × ℕ)
    → List (ℕ × ℕ × ℕ × List ℕ)
    → List CanLine
    → Result (List (Problem CanLine))
unfolding all_lines idle_problems
can_bus (_, levels) frames decoded = do
  expected ← all_lines frames
  ok (idle_problems levels ++ exactly decoded expected)
