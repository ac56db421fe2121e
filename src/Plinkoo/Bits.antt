-- ===== src/Plinkoo/Bits.antt =====
-- A bit that the decoder of demo/decoders/plinkoo/pd.py takes.
use protocol_emulator.Base.{
  ℕ, zero, suc, ◌+◌, ◌-◌, ◌*◌, ◌%◌, ◌≤◌, ◌<◌, ◌≡◌, refl, sym, ◌∙◌, subst, true, false, ◌&&◌, List,
  [], ◌∷◌, ◌++◌, none, some, ltb, leb, ◌==◌, arith, length, length-append, Bool-cases, ◌⊎◌, inl,
  inr, ◌⊎◌,
}
use protocol_emulator.Base.Slices.{pieces}
use protocol_emulator.Snorble.{first_or}
use protocol_emulator.Plinkoo.{
  bit, byte_sum, Edge, Reading, is_complete, last_eight, total, take_byte, take_bit,
}
use protocol_emulator.Plinkoo.Symbols.{heading, acking, payload, step, level}
use protocol_emulator.Plinkoo.Kept.{
  Holds, Keeps, Holds-next, Holds-full, sum_shown, nothing_held, Agree,
}

module _ (e : Edge) (r : Reading) (d : r.dat < 2) where
  pub acking_bit :
      (count value : ℕ)
      → Keeps r.sync_low r.length_byte r.bits acking count value
      → Agree
          (take_bit e r)
          (step (level r.dat) (record { stage = acking; count = count; value = value }))
  unfolding take_bit is_complete
  acking_bit count value (low, (n, is, long)) =
      let whole : (length r.bits == 8 * (n + 2)) ≡ true = ground (arith, long) in
      rw (is, whole)
        (elim (Bool-cases (r.dat == 0)) [
          | inl low_level ↦ (rw low_level refl, refl)
          | inr high ↦ (rw high refl, refl)
        ])

  -- The decoder with the bit taken.
  abbrev taken : Reading
  taken = record r { bits = r.bits ++ r.dat ∷ []; starts = r.starts ++ r.fall ∷ [] }

  take_bit_part :
      is_complete r.length_byte r.bits ≡ false
      → (length taken.bits % 8 == 0) ≡ false
      → take_bit e r ≡ (bit r.fall e.at r.dat ∷ [], taken)
  unfolding take_bit
  take_bit_part goes_on part = rw (goes_on, part) refl

  take_bit_whole :
      is_complete r.length_byte r.bits ≡ false
      → (length taken.bits % 8 == 0) ≡ true
      → take_bit e r ≡ (
        bit r.fall e.at r.dat ∷ (take_byte (first_or 0 (last_eight taken.starts)) e.at taken).0,
        (take_byte (first_or 0 (last_eight taken.starts)) e.at taken).1,
      )
  unfolding take_bit
  take_bit_whole goes_on whole = rw (goes_on, whole) refl

  part_length :
      (k : ℕ) (done : List ℕ) (count value : ℕ)
      → length done ≡ 8 * k
      → count < 7
      → Holds r.bits done count value
      → (length taken.bits % 8 == 0) ≡ false
  part_length k done count value long few (now, same, l, is, c) =
      let size : length taken.bits ≡ 8 * k + (count + 1) =
        rw (length-append r.bits (r.dat ∷ []), same, length-append done now) (omega arith) in
      ground (arith, size)

  module _ (value : ℕ) (now : Holds r.bits [] 7 value) (low : (x : ℕ) × (r.sync_low ≡ some x))
      (is : r.length_byte ≡ none) where
    heading_byte :
        Agree
          (take_bit e r)
          (step (level r.dat) (record { stage = heading; count = 7; value = value }))
    unfolding take_byte is_complete total byte_sum pieces
    heading_byte =
        let (same, sum, long) = Holds-full 0 r.bits [] value r.dat d refl now in
        let whole : (length taken.bits % 8 == 0) ≡ true = ground (arith, long) in
        rw (take_bit_whole (rw is refl) whole, is, same)
          (elim (Bool-cases (leb 1 (2 * value + r.dat) && leb (2 * value + r.dat) 8)) [
            | inr off ↦ (rw off refl, rw off refl)
            | inl fits ↦ (
              rw fits refl,
              rw fits (
                low,
                (
                  2 * value + r.dat,
                  refl,
                  omega arith,
                  (taken.bits, omega (arith, long), omega (arith, sum), nothing_held taken.bits),
                ),
              ),
            )
          ])

  payload_goes_on :
      (count value n left : ℕ) (done : List ℕ)
      → Holds r.bits done count value
      → r.length_byte ≡ some n
      → length done ≡ 8 * (n + 1 - left)
      → is_complete r.length_byte r.bits ≡ false
  unfolding is_complete
  payload_goes_on count value n left done (held, same, long, v, few) is size =
      let bits : length r.bits ≡ 8 * (n + 1 - left) + count =
        rw (same, length-append done held) (omega (arith, size, long)) in
      rw is (ground (arith, bits, few))

  payload_byte :
      (value n left tally : ℕ) (done : List ℕ)
      → Holds r.bits done 7 value
      → ((x : ℕ) × (r.sync_low ≡ some x))
      → r.length_byte ≡ some n
      → left ≤ n
      → length done ≡ 8 * (n + 1 - left)
      → total done ≡ tally
      → Agree
          (take_bit e r)
          (step (level r.dat) (record { stage = payload left tally; count = 7; value = value }))
  unfolding take_byte
  payload_byte value n (suc left) tally done now low is few size sums =
      let (same, sum, long) = Holds-full (n + 1 - suc left) r.bits done value r.dat d size now in
      let whole : (length taken.bits % 8 == 0) ≡ true = ground (arith, long) in
      let more : ltb (length taken.bits) (8 * (n + 2)) ≡ true = ground (arith, long, few) in
      rw
        (
          take_bit_whole (payload_goes_on 7 value n (suc left) done now is size) whole,
          is,
          more,
          same,
        )
        (
          refl,
          (
            low,
            (
              n,
              refl,
              omega arith,
              (
                taken.bits,
                omega (arith, long, few),
                sum ∙ omega (arith, sums),
                nothing_held taken.bits,
              ),
            ),
          ),
        )
  payload_byte value n zero tally done now low is few size sums =
      let (same, sum, long) =
        Holds-full (n + 1) r.bits done value r.dat d (size ∙ omega arith) now in
      let whole : (length taken.bits % 8 == 0) ≡ true = ground (arith, long) in
      let last : ltb (length taken.bits) (8 * (n + 2)) ≡ false = ground (arith, long) in
      rw
        (
          take_bit_whole (payload_goes_on 7 value n zero done now is size) whole,
          is,
          last,
          sum,
          sums,
        )
        (sum_shown _ _ _, (low, (n, refl, omega (arith, long))))

  part_byte :
      (k count value : ℕ) (done : List ℕ)
      → Holds r.bits done count value
      → length done ≡ 8 * k
      → count < 7
      → is_complete r.length_byte r.bits ≡ false
      → (take_bit e r ≡ (bit r.fall e.at r.dat ∷ [], taken))
        × Holds taken.bits done (count + 1) (2 * value + r.dat)
  part_byte k count value done now size few goes_on = (
    take_bit_part goes_on (part_length k done count value size few now),
    Holds-next r.bits done count value r.dat d few now,
  )

  seven_or_less : (count : ℕ) → count < 8 → (count ≡ 7) ⊎ (count < 7)
  seven_or_less count few = omega arith

  pub heading_bit :
      (count value : ℕ)
      → Keeps r.sync_low r.length_byte r.bits heading count value
      → Agree
          (take_bit e r)
          (step (level r.dat) (record { stage = heading; count = count; value = value }))
  unfolding is_complete
  heading_bit count value (low, is, now) = elim (seven_or_less count now.4) [
    | inl seven ↦
        subst
          (λ c.
            Agree (take_bit e r)
              (step (level r.dat) (record { stage = heading; count = c; value = value })))
          (sym seven) (heading_byte value (subst (λ c. Holds r.bits [] c value) seven now) low is)
    | inr few ↦
        let (same, next) = part_byte 0 count value [] now refl few (rw is refl) in
        let more : (count == 7) ≡ false = ground (arith, few) in
        rw (same, more) (refl, (low, is, next))
  ]

  pub payload_bit :
      (left tally count value : ℕ)
      → Keeps r.sync_low r.length_byte r.bits (payload left tally) count value
      → Agree
          (take_bit e r)
          (step (level r.dat) (record { stage = payload left tally; count = count; value = value }))
  payload_bit left tally count value (low, (n, is, le, (done, size, sums, now))) =
      elim (seven_or_less count now.4) [
        | inl seven ↦
            subst
              (λ c. Agree (take_bit e r) (
                step (level r.dat)
                  (record { stage = payload left tally; count = c; value = value })))
              (sym seven)
              (payload_byte value n left tally done
                (subst (λ c. Holds r.bits done c value) seven now) low is le size sums)
        | inr few ↦
            let (same, next) =
              part_byte (n + 1 - left) count value done now size few
                (payload_goes_on count value n left done now is size) in
            let more : (count == 7) ≡ false = ground (arith, few) in
            rw (same, more) (refl, (low, (n, is, le, (done, size, sums, next))))
      ]
