-- ===== src/UsbFs/Packets.antt =====
-- python/usb_fs_board.py: the constants, the packets and their records.
use protocol_emulator.Base.{
  ℕ, suc, ◌+◌, ◌*◌, ◌%◌, ◌&&◌, List, [], ◌∷◌, ◌++◌, bit_and, bit_or, length, take, ltb, ◌==◌,
  if◌then◌else◌,
}
use protocol_emulator.Base.Bits.{shl}
use protocol_emulator.Base.Slices.{pieces}

abbrev pub data0 : ℕ
data0 = 0xc3

abbrev pub data1 : ℕ
data1 = 0x4b

abbrev pub ack : ℕ
ack = 0xd2

abbrev pub nak : ℕ
nak = 0x5a

abbrev pub stall : ℕ
stall = 0x1e

abbrev pub max_packet : ℕ
max_packet = 8

abbrev pub tag_acked : ℕ
tag_acked = 3

abbrev pub tag_noack : ℕ
tag_noack = 4

-- `LENGTHS`
abbrev pub lengths : List ℕ
lengths = 2 ∷ 4 ∷ 8 ∷ 9 ∷ 18 ∷ 34 ∷ 64 ∷ 255 ∷ []

abbrev pub report_kind : ℕ
report_kind = 0x22

unfoldable pub data_packet : ℕ → List ℕ → List ℕ
data_packet pid payload = pid ∷ payload

abbrev pub stall_packet : List ℕ
stall_packet = stall ∷ []

unfoldable pub handshake_record : ℕ → List ℕ
handshake_record pid = 15 ∷ bit_or 0x80 (shl pid 8) ∷ []

-- Two bytes to a word, the first lowest.
unfoldable pub paired : List ℕ → List ℕ
paired [] = []
paired (low ∷ []) = bit_or low (shl 0 8) ∷ []
paired (low ∷ high ∷ bytes) = bit_or low (shl high 8) ∷ paired bytes

-- `record`; a packet is its PID and its data, and never empty.
unfoldable pub record_of : List ℕ → List ℕ
unfolding paired
record_of [] = []
record_of (pid ∷ bytes) =
    if bit_and pid 3 == 2
    then 0 ∷ bit_or 0x80 (shl pid 8) ∷ []
    else (8 * length bytes + 1) ∷ bit_or 0x80 (shl pid 8) ∷ paired bytes

unfoldable pub in_token : ℕ → ℕ → ℕ
in_token address endpoint = bit_or (bit_or 0x69 (shl address 8)) (shl (bit_and endpoint 1) 15)

-- The packets of a list of payloads, from the one that `enumerate` counts as n.
unfoldable pub numbered : ℕ → List (List ℕ) → List (List ℕ)
unfolding data_packet
numbered n [] = []
numbered n (chunk ∷ out) =
    data_packet (if n % 2 == 0 then data1 else data0) chunk ∷ numbered (suc n) out

unfoldable pub chunks : List ℕ → ℕ → List (List ℕ)
unfolding numbered
chunks bytes asked =
    let answer = take asked bytes in
    let out = pieces max_packet answer in
    if ltb (length answer) asked && (length answer % max_packet == 0)
    then numbered 0 (out ++ [] ∷ [])
    else numbered 0 out
