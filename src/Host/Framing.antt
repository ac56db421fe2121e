-- ===== src/Host/Framing.antt =====
-- The frames of `Host.write` and `Host.read` reach a device's registers as they are.
use protocol_emulator.Base.{
  ℕ, zero, suc, ◌+◌, ◌*◌, ◌/◌, ◌%◌, ◌<◌, ◌≡◌, refl, List, [], ◌∷◌, All, arith, bit_or, bit_and, ok,
  replicate,
}
use protocol_emulator.Base.Bits.{shr, bit_or-shl, bit_or-high_byte, bit_and-255}
use protocol_emulator.Host.Port.{host, word_bytes, reply_words, host_write, host_read}
use protocol_emulator.Host.Device.{
  Device, put_all, get_all, take_words, give_words, exchange, serve, device_port, IsWide,
}

write_command : (reg : ℕ) → reg < 128 → bit_or 0x80 reg ≡ 128 + reg
write_command reg h = bit_or-shl 7 1 reg h

joined_word : (w : ℕ) → w < 65536 → bit_and (shr w 8) 0xff * 256 + bit_and w 0xff ≡ w
joined_word w h = omega (arith, bit_and-255 (w / 256), bit_and-255 w)

split_word : (w : ℕ) → w < 65536 → bit_or (w / 256 * 256) (w % 256) ≡ w
split_word w h = omega (arith, bit_or-high_byte (w / 256) (w % 256) (omega arith))

module _ (D : Device) where
  take_words-word_bytes :
      (reg : ℕ) (words : List ℕ) (s : D.State)
      → All (λ w. w < 65536) words
      → take_words D reg (word_bytes words) s ≡ put_all D reg words s
  unfolding take_words word_bytes
  take_words-word_bytes reg [] s h = refl
  take_words-word_bytes reg (w ∷ words) s h =
      rw (joined_word w h.0) (take_words-word_bytes reg words (D.put reg w s) h.1)

  -- Of 16-bit words to a register below 128: a write through the frames is a write of each word to
  -- the register, in order.
  pub write-serve :
      (reg : ℕ) (words : List ℕ) (s : D.State)
      → reg < 128
      → All (λ w. w < 65536) words
      → (host (serve D)).write reg words s ≡ (device_port D).write reg words s
  unfolding host_write exchange
  write-serve reg words s h hw =
      ground (arith, write_command reg h, take_words-word_bytes reg words s hw)

  reply_words-give_words :
      (reg n : ℕ) (s : D.State)
      → IsWide D
      → (reply_words n (give_words D reg (replicate (2 * n) 0) s).0 ≡ ok (get_all D reg n s).0)
        × ((give_words D reg (replicate (2 * n) 0) s).1 ≡ (get_all D reg n s).1)
  unfolding reply_words give_words
  reply_words-give_words reg zero s wide = (refl, refl)
  reply_words-give_words reg (suc n) s wide =
      let e : 2 * suc n ≡ suc (suc (2 * n)) = omega arith in
      let (w, t) = D.get reg s in
      rw e (ground (arith, split_word w (wide reg s), reply_words-give_words reg n t wide))

  -- Of a register below 128 on a device whose registers read as words: a read through the frames
  -- is that many reads of the register, in order.
  pub read-serve :
      (reg count : ℕ) (s : D.State)
      → reg < 128
      → IsWide D
      → (host (serve D)).read reg count s ≡ (device_port D).read reg count s
  unfolding host_read exchange
  read-serve reg count s h wide = ground (arith, reply_words-give_words reg count s wide)

  -- Of a register below 128 on a device whose registers read as words: a read through the frames
  -- is that many reads of the register, in order, and a write of 16-bit words is a write of each
  -- of them, in order.
  pub port-serve :
      (reg : ℕ)
      → reg < 128
      → IsWide D
      → ((count : ℕ) (s : D.State)
          → (host (serve D)).read reg count s ≡ (device_port D).read reg count s)
        × ((words : List ℕ) (s : D.State)
            → All (λ w. w < 65536) words
            → (host (serve D)).write reg words s ≡ (device_port D).write reg words s)
  port-serve reg h wide =
      (λ count s. read-serve reg count s h wide, λ words s. write-serve reg words s h)
