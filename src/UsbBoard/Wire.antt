-- ===== src/UsbBoard/Wire.antt =====
-- The words of a packet that the core received, and those of a reply that it sends, against the
-- bytes on the bus.
use protocol_emulator.Base.{
  ℕ, zero, suc, ◌+◌, ◌*◌, ◌/◌, ltb, ◌%◌, ◌<◌, ◌≡◌, refl, ◌∙◌, ap, true, ◌&&◌, [], ◌∷◌, arith,
  bit_and, ◌==◌,
}
use protocol_emulator.Base.Bits.{shr, bit_and-255}
use protocol_emulator.UsbBoard.Packets.{reversed, word_bytes}
use protocol_emulator.Base.Table.{all_below, all_below-at}

-- The core shifts each bit in at the low end; USB sends a byte's lowest bit first.
unfoldable shift_byte : ℕ → ℕ → ℕ → ℕ
shift_byte zero word byte = word
shift_byte (suc n) word byte = shift_byte n (2 * word + byte % 2) (byte / 2)

-- The word of two bytes, as the core pushes it.
received_word : ℕ → ℕ → ℕ
received_word first second = shift_byte 8 (shift_byte 8 0 first) second

-- An entry of the table, against the core's shifts, and its bound.
entry-shift_byte :
    all_below 256 (λ b. (reversed (shift_byte 8 0 b) == b) && ltb (shift_byte 8 0 b) 256) ≡ true
unfolding reversed all_below shift_byte
entry-shift_byte = refl

reversed-shift_byte : (b : ℕ) → b < 256 → reversed (shift_byte 8 0 b) ≡ b
reversed-shift_byte b h =
    let e =
      all_below-at 256 (λ b. (reversed (shift_byte 8 0 b) == b) && ltb (shift_byte 8 0 b) 256)
        entry-shift_byte b h in
    ground (arith, e)

shift_byte_bound : (b : ℕ) → b < 256 → shift_byte 8 0 b < 256
shift_byte_bound b h =
    let e =
      all_below-at 256 (λ b. (reversed (shift_byte 8 0 b) == b) && ltb (shift_byte 8 0 b) 256)
        entry-shift_byte b h in
    ground (arith, e)

shift_byte_from : (word byte : ℕ) → shift_byte 8 word byte ≡ word * 256 + shift_byte 8 0 byte
unfolding shift_byte
shift_byte_from word byte = omega arith

word_bytes-halves :
    (high low : ℕ) → low < 256 → word_bytes (high * 256 + low) ≡ reversed high ∷ reversed low ∷ []
unfolding word_bytes
word_bytes-halves high low h =
    let top : shr (high * 256 + low) 8 ≡ high = omega (arith, h) in
    let bottom : bit_and (high * 256 + low) 0xff ≡ low =
      omega (arith, h, bit_and-255 (high * 256 + low)) in
    rw top (rw bottom refl)

-- Of two bytes that the core shifted in bit by bit, the first that was sent at the top of the
-- word, `word_bytes` gives back both, in the order they were sent.
word_bytes-received_word :
    (first second : ℕ)
    → first < 256
    → second < 256
    → word_bytes (received_word first second) ≡ first ∷ second ∷ []
unfolding received_word
word_bytes-received_word first second p q =
    ap word_bytes (shift_byte_from (shift_byte 8 0 first) second)
    ∙ word_bytes-halves (shift_byte 8 0 first) (shift_byte 8 0 second) (shift_byte_bound second q)
    ∙ ap (λ b. b ∷ reversed (shift_byte 8 0 second) ∷ []) (reversed-shift_byte first p)
    ∙ ap (λ b. first ∷ b ∷ []) (reversed-shift_byte second q)
