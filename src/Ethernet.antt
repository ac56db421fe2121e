-- ===== src/Ethernet.antt =====
-- python/ethernet.py: frames, their checksum, and what a sender puts on the line.
pub mod Words
pub mod Checksum
pub mod Datagram
pub mod Line
pub mod Tests
use protocol_emulator.Base.{
  ℕ, zero, suc, ◌+◌, ◌-◌, ◌*◌, ◌/◌, ◌%◌, max, List, [], ◌∷◌, ◌++◌, bit_and, bit_or, bit_xor, length,
  get_or, replicate, true, false, ltb, leb, ◌==◌, if◌then◌else◌, M, pure, ◌>>=◌, ◌>>◌,
}
use protocol_emulator.Base.Bits.{shr, shl}
use protocol_emulator.Host.Port.{Port}
use protocol_emulator.Host.Registers.{control_reg, data_addr, data_reg, tx_reg}
use protocol_emulator.Host.Config.{Writes}
use protocol_emulator.Host.Methods.{write_all}

-- `PREAMBLE`
abbrev pub preamble : List ℕ
preamble = replicate 7 0x55 ++ 0xd5 ∷ []

-- `LINK_TENTH`
abbrev pub link_tenth : ℕ
link_tenth = 64000

-- A turn of the inner loop of `crc32`, and the eight of them.
crc_bits : ℕ → ℕ → ℕ
crc_bits zero crc = crc
crc_bits (suc n) crc =
    crc_bits n (if bit_and crc 1 == 0 then shr crc 1 else bit_xor (shr crc 1) 0xedb88320)

crc_bytes : List ℕ → ℕ → ℕ
crc_bytes [] crc = crc
crc_bytes (byte ∷ bytes) crc = crc_bytes bytes (crc_bits 8 (bit_xor crc byte))

pub crc32 : List ℕ → ℕ
crc32 bytes = bit_xor (crc_bytes bytes 0xffffffff) 0xffffffff

-- `_big16`
unfoldable pub big16 : ℕ → List ℕ
big16 n = shr n 8 ∷ bit_and n 0xff ∷ []

-- The sum in `_ip_checksum`; a header's length is even.
unfoldable pub word_sum : List ℕ → ℕ
word_sum (high ∷ low ∷ header) = bit_or (shl high 8) low + word_sum header
word_sum _ = 0

-- `while total > 0xFFFF`
unfoldable pub fold : ℕ → ℕ → ℕ
fold zero total = total
fold (suc fuel) total = elim (ltb 0xffff total) [
  | false ↦ total
  | true ↦ fold fuel (bit_and total 0xffff + shr total 16)
]

-- `_ip_checksum`; `~total & 0xFFFF` of a total that is a word. The total is fuel enough.
unfoldable pub ip_checksum : List ℕ → ℕ
unfolding fold word_sum
ip_checksum header = 0xffff - fold (word_sum header) (word_sum header)

-- `ip` in `udp`, of a datagram header and payload of `size` bytes.
unfoldable pub ip_header : List ℕ → ℕ → ℕ → List ℕ
unfolding big16
ip_header source size checksum =
    (0x45 ∷ 0 ∷ [])
    ++ big16 (20 + size)
    ++ (0 ∷ 0 ∷ 0x40 ∷ 0 ∷ 64 ∷ 17 ∷ [])
    ++ big16 checksum
    ++ source
    ++ (255 ∷ 255 ∷ 255 ∷ 255 ∷ [])

unfoldable pub datagram_header : ℕ → List ℕ → List ℕ
unfolding big16
datagram_header port payload = big16 port ++ big16 port ++ big16 (8 + length payload) ++ big16 0

-- The frame before it is padded.
unfoldable pub unpadded : List ℕ → List ℕ → ℕ → List ℕ
unfolding ip_header ip_checksum datagram_header big16
unpadded payload source port =
    let datagram = datagram_header port payload in
    let size = length datagram + length payload in
    (replicate 6 0xff ++ (2 ∷ 0 ∷ 0 ∷ 0 ∷ 0 ∷ 2 ∷ []) ++ big16 0x0800)
    ++ ip_header source size (ip_checksum (ip_header source size 0))
    ++ datagram
    ++ payload

-- The shortest frame is 60 bytes, and a frame has an even length.
unfoldable pub padded_length : ℕ → ℕ
padded_length n = max 60 n + bit_and (max 60 n) 1

unfoldable pub udp : List ℕ → List ℕ → ℕ → List ℕ
unfolding unpadded padded_length
udp payload source port =
    let frame = unpadded payload source port in
    frame ++ replicate (padded_length (length frame) - length frame) 0

pub wire : List ℕ → List ℕ
unfolding crc32
wire frame =
    let fcs = crc32 frame in
    preamble
    ++ frame
    ++ (bit_and fcs 0xff
        ∷ bit_and (shr fcs 8) 0xff
        ∷ bit_and (shr fcs 16) 0xff
        ∷ bit_and (shr fcs 24) 0xff
        ∷ [])

-- `words`; the data's length is even.
unfoldable pub words : List ℕ → List ℕ
words (low ∷ high ∷ bytes) = bit_or low (shl high 8) ∷ words bytes
words _ = []

pub writes : List ℕ → ℕ → Writes
unfolding words
writes frame tenth =
    (control_reg, 4 ∷ [])
    ∷ (control_reg, 8 ∷ [])
    ∷ (data_addr, 0 ∷ [])
    ∷ (data_reg, words (preamble ++ frame))
    ∷ (tx_reg, tenth ∷ (8 * length frame - 2) ∷ [])
    ∷ (control_reg, 1 ∷ [])
    ∷ []

pub send : (P : Port) → List ℕ → ℕ → M P.State (Unit {0})
unfolding writes
send P frame tenth = write_all P (writes frame tenth)

-- The levels of the bits of a byte from bit n on.
unfoldable pub bit_halves : ℕ → ℕ → ℕ → List ℕ
bit_halves zero n byte = []
bit_halves (suc count) n byte =
    let bit = bit_and (shr byte n) 1 in (1 - bit) ∷ bit ∷ bit_halves count (suc n) byte

unfoldable pub byte_halves : List ℕ → List ℕ
unfolding bit_halves
byte_halves [] = []
byte_halves (byte ∷ bytes) = bit_halves 8 0 byte ++ byte_halves bytes

unfoldable pub halves : List ℕ → ℕ → List ℕ
unfolding byte_halves
halves bytes idle = byte_halves (preamble ++ bytes) ++ replicate idle 1 ++ 0 ∷ []

-- The bytes of `received` from byte n on.
unfoldable pub received_from : List ℕ → ℕ → ℕ → List ℕ
received_from words n zero = []
received_from words n (suc count) =
    bit_and (shr (get_or words (n / 2) 0) (8 * (n % 2))) 0xff ∷ received_from words (suc n) count

-- `received`; there are words enough.
unfoldable pub received : List ℕ → ℕ → List ℕ
unfolding received_from
received words count = received_from words 0 count
