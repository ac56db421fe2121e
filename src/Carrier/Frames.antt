-- ===== src/Carrier/Frames.antt =====
-- The eleven bytes of a frame, by what icepi/carrier_check.v takes from them.
use protocol_emulator.Base.{
  ℕ, zero, suc, ◌+◌, ◌*◌, ◌/◌, ◌%◌, ◌^◌, ◌<◌, ◌≡◌, refl, ◌∙◌, ap, Option, none, some, List, [], ◌∷◌,
  arith, bit_and, bit_or,
}
use protocol_emulator.Base.Bits.{shr, shl, bit_and-255, bit_or-shl, shl-bit_or}
use protocol_emulator.Carrier.{Slot, encode, slot_words}

-- What the bytes say: two masks of 21 bits, the low bits of three bytes each, and in the seventh byte a flag (bit 6), a level (bit 7) and a pin (bits 4:0), then two times.
pub record Taken : Type 0 where
  pub oe : ℕ
  pub out : ℕ
  pub slot : Option Slot

pub take_frame : List ℕ → Option Taken
take_frame (a ∷ b ∷ c ∷ d ∷ e ∷ f ∷ flags ∷ l1 ∷ l0 ∷ s1 ∷ s0 ∷ []) = some (record {
  oe = a % 32 * 65536 + b * 256 + c;
  out = d % 32 * 65536 + e * 256 + f;
  slot = elim (flags / 64 % 2) [
    | zero ↦ none
    | suc _ ↦ some (record {
      at_pin = flags % 32;
      level = flags / 128;
      length_us = l1 * 256 + l0;
      sample_us = s1 * 256 + s0;
    })
  ];
})
take_frame _ = none

-- The bytes of a mask, and of a time.
mask_bytes :
    (x : ℕ)
    → x < 2097152
    → bit_and (shr x 16) 0xff % 32 * 65536 + bit_and (shr x 8) 0xff * 256 + bit_and x 0xff ≡ x
mask_bytes x h = omega (arith, h, bit_and-255 (shr x 16), bit_and-255 (shr x 8), bit_and-255 x)

time_bytes : (x : ℕ) → x < 65536 → bit_and (shr x 8) 0xff * 256 + bit_and x 0xff ≡ x
time_bytes x h = omega (arith, h, bit_and-255 (shr x 8), bit_and-255 x)

-- The seventh byte of a slot.
flag_byte :
    (level at : ℕ)
    → level < 2
    → at < 32
    → bit_and (bit_or (bit_or 0x40 (shl level 7)) at) 0xff ≡ level * 128 + 64 + at
flag_byte level at h k =
    let inner : bit_or 0x40 (shl level 7) ≡ (2 * level + 1) * 2 ^ 6 =
      omega (arith, shl-bit_or 7 level 0x40 (omega arith)) in
    let whole : bit_or (bit_or 0x40 (shl level 7)) at ≡ level * 128 + 64 + at =
      ap (λ x. bit_or x at) inner
      ∙ omega (arith, bit_or-shl 6 (2 * level + 1) at (omega (arith, k))) in
    omega (arith, whole, h, k, bit_and-255 (bit_or (bit_or 0x40 (shl level 7)) at))

take_frame-encode-none :
    (oe out : ℕ)
    → oe < 2097152
    → out < 2097152
    → take_frame (encode oe out none) ≡ some (record { oe = oe; out = out; slot = none })
unfolding take_frame encode slot_words
take_frame-encode-none oe out h k =
    ap
      (λ x. some (record {
        oe = x;
        out =
            bit_and (shr out 16) 0xff % 32 * 65536
            + bit_and (shr out 8) 0xff * 256
            + bit_and out 0xff;
        slot = none;
      }))
      (mask_bytes oe h)
    ∙ ap (λ x. some (record { oe = oe; out = x; slot = none })) (mask_bytes out k)

take_frame-encode-slot :
    (oe out at level length_us sample_us : ℕ)
    → oe < 2097152
    → out < 2097152
    → at < 32
    → level < 2
    → length_us < 65536
    → sample_us < 65536
    → take_frame (
        encode oe out (
          some
            (record { at_pin = at; level = level; length_us = length_us; sample_us = sample_us })))
      ≡ some (record {
        oe = oe;
        out = out;
        slot =
            some
              (record { at_pin = at; level = level; length_us = length_us; sample_us = sample_us });
      })
unfolding take_frame encode slot_words
take_frame-encode-slot oe out at level length_us sample_us h k a l m n =
    let flags : ℕ = bit_and (bit_or (bit_or 0x40 (shl level 7)) at) 0xff in
    let value = flag_byte level at l a in
    let there : flags / 64 % 2 ≡ 1 = omega (arith, value, l, a) in
    let at_flags : flags % 32 ≡ at = omega (arith, value, l, a) in
    let level_flags : flags / 128 ≡ level = omega (arith, value, l, a) in
    rw
      (
        mask_bytes oe h,
        mask_bytes out k,
        there,
        at_flags,
        level_flags,
        time_bytes length_us m,
        time_bytes sample_us n,
      )
      refl

-- What a slot may be: a pin of 32, a level, and times of 16 bits.
abbrev pub IsSlot : Option Slot → Type 0
IsSlot none = Unit {0}
IsSlot (some s) =
    (s.at_pin < 32) × ((s.level < 2) × ((s.length_us < 65536) × (s.sample_us < 65536)))

-- Of masks of 21 bits, one for each pin of the carrier, and of no slot or one with a pin below 32,
-- a level and times of 16 bits: the frame that `encode` makes has eleven bytes, from which the
-- bitstream takes the masks and the slot back.
pub take_frame-encode :
    (oe out : ℕ) (slot : Option Slot)
    → oe < 2097152
    → out < 2097152
    → IsSlot slot
    → take_frame (encode oe out slot) ≡ some (record { oe = oe; out = out; slot = slot })
take_frame-encode oe out none h k v = take_frame-encode-none oe out h k
take_frame-encode oe out (some s) h k (a, (l, (m, n))) =
    take_frame-encode-slot oe out s.at_pin s.level s.length_us s.sample_us h k a l m n
