-- ===== src/Ethernet/Line.antt =====
-- What a sender puts on the line, by a receiver that samples the second half of each bit.
use protocol_emulator.Base.{
  All-append, ℕ, zero, suc, ◌+◌, ◌*◌, ◌<◌, ◌≡◌, refl, ◌∙◌, ap, sym, List, [], ◌∷◌, ◌++◌, All, arith,
  length, drop, replicate, append_assoc, length-append,
}
use protocol_emulator.Base.Bits.{shr, bit_and-1}
use protocol_emulator.Ethernet.{bit_halves, byte_halves, halves, preamble}

-- The value of so many bits, the lowest first, by the second of each two levels.
unfoldable pub sampled : ℕ → List ℕ → ℕ
sampled (suc count) (_ ∷ bit ∷ levels) = bit + 2 * sampled count levels
sampled _ _ = 0

-- The bytes of so many sixteens of levels.
unfoldable pub sampled_bytes : ℕ → List ℕ → List ℕ
sampled_bytes zero levels = []
sampled_bytes (suc count) levels = sampled 8 levels ∷ sampled_bytes count (drop 16 levels)

sampled-bit_halves :
    (byte : ℕ) (rest : List ℕ) → byte < 256 → sampled 8 (bit_halves 8 0 byte ++ rest) ≡ byte
unfolding sampled bit_halves
sampled-bit_halves byte rest h = omega (
  arith,
  h,
  bit_and-1 (shr byte 0),
  bit_and-1 (shr byte 1),
  bit_and-1 (shr byte 2),
  bit_and-1 (shr byte 3),
  bit_and-1 (shr byte 4),
  bit_and-1 (shr byte 5),
  bit_and-1 (shr byte 6),
  bit_and-1 (shr byte 7),
)

drop-bit_halves : (byte : ℕ) (rest : List ℕ) → drop 16 (bit_halves 8 0 byte ++ rest) ≡ rest
unfolding bit_halves
drop-bit_halves byte rest = refl

sampled_bytes-byte_halves :
    (bytes rest : List ℕ)
    → All (λ b. b < 256) bytes
    → sampled_bytes (length bytes) (byte_halves bytes ++ rest) ≡ bytes
unfolding sampled_bytes byte_halves
sampled_bytes-byte_halves [] rest v = refl
sampled_bytes-byte_halves (byte ∷ bytes) rest (h, v) =
    ap (λ l. sampled 8 l ∷ sampled_bytes (length bytes) (drop 16 l))
      (append_assoc (bit_halves 8 0 byte) (byte_halves bytes) rest)
    ∙ ap
        (λ b.
          b
          ∷ sampled_bytes (length bytes)
              (drop 16 (bit_halves 8 0 byte ++ (byte_halves bytes ++ rest))))
        (sampled-bit_halves byte (byte_halves bytes ++ rest) h)
    ∙ ap (λ l. byte ∷ sampled_bytes (length bytes) l)
        (drop-bit_halves byte (byte_halves bytes ++ rest))
    ∙ ap (λ l. byte ∷ l) (sampled_bytes-byte_halves bytes rest v)

-- A receiver that samples the second half of each bit, lowest bit first, reads the preamble and
-- then the bytes from what `halves` puts on the line.
pub halves_lem :
    (bytes : List ℕ) (idle : ℕ)
    → All (λ b. b < 256) bytes
    → sampled_bytes (8 + length bytes) (halves bytes idle) ≡ preamble ++ bytes
unfolding halves
halves_lem bytes idle v =
    let sent : List ℕ = preamble ++ bytes in
    let behind : List ℕ = replicate idle 1 ++ 0 ∷ [] in
    let preamble_bytes : All (λ b. b < 256) preamble = (
      omega arith,
      (
        omega arith,
        (
          omega arith,
          (omega arith, (omega arith, (omega arith, (omega arith, (omega arith, tt))))),
        ),
      ),
    ) in
    let size : 8 + length bytes ≡ length sent = sym (length-append preamble bytes) in
    ap (λ n. sampled_bytes n (byte_halves sent ++ replicate idle 1 ++ 0 ∷ [])) size
    ∙ ap (λ l. sampled_bytes (length sent) l)
        (append_assoc (byte_halves sent) (replicate idle 1) (0 ∷ []))
    ∙ sampled_bytes-byte_halves sent behind
        (All-append (λ b. b < 256) preamble bytes preamble_bytes v)
