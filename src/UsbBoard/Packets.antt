-- ===== src/UsbBoard/Packets.antt =====
-- python/usb_board.py: the constants, the bytes of a word and the words of a reply.
use protocol_emulator.Base.{ℕ, ◌+◌, ◌*◌, List, [], ◌∷◌, ◌++◌, bit_and, bit_or, length}
use protocol_emulator.Base.Bits.{shr, shl}

abbrev pub data0 : ℕ
data0 = 0xc3

abbrev pub data1 : ℕ
data1 = 0x4b

abbrev pub max_packet : ℕ
max_packet = 8

abbrev pub tag_data0 : ℕ
tag_data0 = 1

abbrev pub tag_data1 : ℕ
tag_data1 = 2

abbrev pub tag_ack : ℕ
tag_ack = 3

abbrev pub tag_dropped : ℕ
tag_dropped = 4

abbrev pub quiet : ℕ
quiet = 5

abbrev pub drain_limit : ℕ
drain_limit = 64

-- An entry of `_REVERSED`: the sum over the bits.
abbrev moved_bit : ℕ → ℕ → ℕ → ℕ
moved_bit byte i to = shl (bit_and (shr byte i) 1) to

unfoldable pub reversed : ℕ → ℕ
reversed b =
    moved_bit b 0 7
    + moved_bit b 1 6
    + moved_bit b 2 5
    + moved_bit b 3 4
    + moved_bit b 4 3
    + moved_bit b 5 2
    + moved_bit b 6 1
    + moved_bit b 7 0

unfoldable pub word_bytes : ℕ → List ℕ
unfolding reversed
word_bytes word = reversed (shr word 8) ∷ reversed (bit_and word 0xff) ∷ []

-- `[b for w in words for b in word_bytes(w)]`
unfoldable pub words_bytes : List ℕ → List ℕ
unfolding word_bytes
words_bytes [] = []
words_bytes (w ∷ words) = word_bytes w ++ words_bytes words

-- Two bytes to a word, the first lowest.
unfoldable pub paired : List ℕ → List ℕ
paired [] = []
paired (low ∷ []) = bit_or low 0 ∷ []
paired (low ∷ high ∷ payload) = bit_or low (shl high 8) ∷ paired payload

unfoldable pub reply : ℕ → ℕ → List ℕ → List ℕ
unfolding paired
reply endpoint pid payload =
    bit_or endpoint (shl pid 8)
    ∷ bit_or (8 * length payload) (shl (length (paired payload)) 8)
    ∷ paired payload
