-- ===== src/Host/Port.antt =====
-- python/protocol_emulator.py: the frames of `Host.write` and `Host.read`, over any function that
-- exchanges one frame.
use protocol_emulator.Base.{
  ℕ, zero, suc, ◌*◌, List, [], ◌∷◌, bit_and, bit_or, replicate, drop, Result, ok, err, M,
  index_error,
}
use protocol_emulator.Base.Bits.{shr, shl}

-- What `Host` is given: `transfer(data)`, with the state of whatever it talks to.
pub record Transport : Type 1 where
  pub State : Type 0
  pub transfer : List ℕ → State → List ℕ × State

-- What the methods of a host use: a write of words to a register and a read of `count` words.
pub record Port : Type 1 where
  pub State : Type 0
  pub write : ℕ → List ℕ → M State (Unit {0})
  pub read : ℕ → ℕ → M State (List ℕ)

-- The loop of `write`, which puts each word behind `data` high byte first.
unfoldable pub word_bytes : List ℕ → List ℕ
word_bytes [] = []
word_bytes (w ∷ words) = bit_and (shr w 8) 0xff ∷ bit_and w 0xff ∷ word_bytes words

abbrev cons_word {ℓ} : {A : Type ℓ} → A → Result (List A) → Result (List A)
cons_word w (ok words) = ok (w ∷ words)
cons_word w (err e) = err e

-- The comprehension of `read`; `reply[i]` past the end is an `IndexError`.
unfoldable pub reply_words : ℕ → List ℕ → Result (List ℕ)
reply_words zero reply = ok []
reply_words (suc count) (high ∷ low ∷ reply) =
    cons_word (bit_or (shl high 8) low) (reply_words count reply)
reply_words (suc count) _ = err index_error

unfoldable pub write_frame : ℕ → List ℕ → List ℕ
unfolding word_bytes
write_frame reg words = bit_or 0x80 reg ∷ word_bytes words

unfoldable pub read_frame : ℕ → ℕ → List ℕ
read_frame reg count = reg ∷ replicate (2 * count) 0

-- `Host.write` and `Host.read`
module _ (t : Transport) where
  unfoldable pub host_write : ℕ → List ℕ → M t.State (Unit {0})
  unfolding write_frame
  host_write reg words s = let (_, s') = t.transfer (write_frame reg words) s in (ok tt, s')

  unfoldable pub host_read : ℕ → ℕ → M t.State (List ℕ)
  unfolding read_frame reply_words
  host_read reg count s =
      let (reply, s') = t.transfer (read_frame reg count) s in
      (reply_words count (drop 1 reply), s')

  -- `Host(transfer)`
  abbrev pub host : Port
  host = record { State = t.State; write = host_write; read = host_read }
