-- ===== src/Plinkoo/Tests.antt =====
-- The Plinkoo decoder on a packet captured at 24 MHz.
use protocol_emulator.Base.{
  ℕ, ◌+◌, ◌<◌, ◌≡◌, refl, List, [], ◌∷◌, Option, some, true, false, All, arith,
}
use protocol_emulator.Plinkoo.{Annotation, Edge, at_start, decode, decode_from}
use protocol_emulator.Plinkoo.Symbols.{shown, symbols, read, a_length, a_byte, right_sum, acked}
use protocol_emulator.Plinkoo.Decoded.{waiting, decode_lem}

-- Bits of 8 samples: STB falls, DAT moves, STB rises.
abbrev bit_edges : ℕ → ℕ → List ℕ → List Edge
bit_edges t before [] = []
bit_edges t before (b ∷ bits) =
    record { at = t; stb = 0; dat = before; matched_stb = true }
    ∷ record { at = t + 1; stb = 0; dat = b; matched_stb = false }
    ∷ record { at = t + 4; stb = 1; dat = b; matched_stb = true }
    ∷ bit_edges (t + 8) b bits

abbrev packet : List ℕ → List Edge
packet bits =
    record { at = 100; stb = 0; dat = 1; matched_stb = true }
    ∷ record { at = 220; stb = 1; dat = 1; matched_stb = true }
    ∷ bit_edges 224 1 bits

-- The length 1, 0x5a and 0xa5, and an ACK.
abbrev good_bits : List ℕ
good_bits =
    0 ∷ 0 ∷ 0 ∷ 0 ∷ 0 ∷ 0 ∷ 0 ∷ 1 ∷ 0 ∷ 1 ∷ 0 ∷ 1 ∷ 1 ∷ 0 ∷ 1 ∷ 0 ∷ 1 ∷ 0 ∷ 1 ∷ 0 ∷ 0 ∷ 1 ∷ 0 ∷ 1
    ∷ 0 ∷ []

packet_test :
    shown (decode_from 24000000 (packet good_bits) at_start)
    ≡ a_length 1 ∷ a_byte 0x5a ∷ right_sum ∷ acked ∷ []
unfolding decode_from protocol_emulator.Base.Slices.pieces
packet_test = refl

bit_edges-binary :
    (t before : ℕ) (bits : List ℕ)
    → before < 2
    → All (λ b. b < 2) bits
    → All (λ e. e.dat < 2) (bit_edges t before bits)
bit_edges-binary t before [] l h = tt
bit_edges-binary t before (b ∷ bits) l (h, hs) = (l, (h, (h, bit_edges-binary (t + 8) b bits h hs)))

good_bits-binary : All (λ b. b < 2) good_bits
good_bits-binary = omega arith

decode_lem_example :
    (out : List Annotation) × (decode (some 24000000) (packet good_bits) ≡ some out)
    × (shown out ≡ read (symbols 24000000 0 (packet good_bits)) waiting)
decode_lem_example =
    decode_lem 24000000 (packet good_bits) (omega arith)
      (omega arith, (omega arith, bit_edges-binary 224 1 good_bits (omega arith) good_bits-binary))
