-- ===== src/Ethernet/Words.antt =====
-- Two bytes to a word and back.
use protocol_emulator.Base.{
  ℕ, zero, suc, ◌*◌, ◌/◌, ◌%◌, ◌<◌, ◌≡◌, refl, ◌∙◌, ap, List, [], ◌∷◌, All, arith, bit_and, bit_or,
  length, get_or,
}
use protocol_emulator.Base.Bits.{shr, shl, bit_and-255, bit_or-low_byte}
use protocol_emulator.Ethernet.{words, received, received_from}

-- Words that start two bytes later.
received_from-cons :
    (w : ℕ) (ws : List ℕ) (n count : ℕ)
    → received_from (w ∷ ws) (suc (suc n)) count ≡ received_from ws n count
unfolding received_from
received_from-cons w ws n zero = refl
received_from-cons w ws n (suc count) =
    let half : suc (suc n) / 2 ≡ suc (n / 2) = omega arith in
    let odd : suc (suc n) % 2 ≡ n % 2 = omega arith in
    rw (half, odd)
      (ap (λ l. bit_and (shr (get_or ws (n / 2) 0) (8 * (n % 2))) 0xff ∷ l)
        (received_from-cons w ws (suc n) count))

-- The bytes of a word.
low_byte : (low high : ℕ) → low < 256 → bit_and (shr (bit_or low (shl high 8)) 0) 0xff ≡ low
low_byte low high h =
    omega (arith, h, bit_or-low_byte high low h, bit_and-255 (shr (bit_or low (shl high 8)) 0))

high_byte :
    (low high : ℕ) → low < 256 → high < 256 → bit_and (shr (bit_or low (shl high 8)) 8) 0xff ≡ high
high_byte low high h k =
    omega (arith, h, k, bit_or-low_byte high low h, bit_and-255 (shr (bit_or low (shl high 8)) 8))

-- Of bytes of an even number, `received` gives back those that `words` packs.
pub received-words :
    (bytes : List ℕ)
    → All (λ b. b < 256) bytes
    → length bytes % 2 ≡ 0
    → received (words bytes) (length bytes) ≡ bytes
unfolding received words received_from
received-words [] v e = refl
received-words (low ∷ []) v e = elim (odd e) [ ]
  where
    odd : length {A = ℕ} (low ∷ []) % 2 ≡ 0 → ⊥
    odd e = omega (arith, e)
received-words (low ∷ high ∷ bytes) (l, (h, v)) e =
    rw (low_byte low high l, high_byte low high l h)
      (ap (λ r. low ∷ high ∷ r)
        (received_from-cons (bit_or low (shl high 8)) (words bytes) 0 (length bytes)
          ∙ received-words bytes v (omega (arith, e))))
