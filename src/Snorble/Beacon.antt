-- ===== src/Snorble/Beacon.antt =====
-- The decoder of demo/decoders/snorble/pd.py reads what a beacon sends.
use protocol_emulator.Base.{
  ℕ, zero, suc, ◌+◌, ◌-◌, ◌*◌, ◌%◌, ◌/◌, ◌≤◌, ◌<◌, ◌≡◌, refl, ap, true, false, List, [], ◌∷◌, ◌++◌,
  Option, none, some, ltb, leb, length, inl, inr, arith, Bool-cases, bit_or,
}
use protocol_emulator.Base.Bits.{shl, bit_or-shl}
use protocol_emulator.Snorble.{
  tick, Bounds, zero_bounds, one_bounds, gap_bounds, idle, Annotation, sync, bit, byte, parity_ok,
  parity_err, timing_warn, Pulse, Decoding, above, sum, shift_in, check, check_gap, check_idle,
  take_bit, take_low, turn, decode_from, t_h, t_ifg, t_l1, t_l0, Width,
}

-- The time from one sample to another, each the first behind an edge, may be one of the bounds'.
abbrev pub InBounds : ℕ → Bounds → ℕ → Type 0
InBounds rate (low, none) width = low * rate ≤ (width + 1) * tick
InBounds rate (low, some high) width =
    (low * rate ≤ (width + 1) * tick) × (width * tick ≤ high * rate + tick)

-- A bit as the datasheet has it: a low of its width behind a gap.
abbrev bit_bounds : ℕ → Bounds
bit_bounds zero = zero_bounds
bit_bounds (suc n) = one_bounds

abbrev pub IsSent : ℕ → ℕ → List ℕ → List Pulse → Type 0
IsSent rate prev [] [] = zero ≡ zero
IsSent rate prev [] (p ∷ pulses) = ⊥
IsSent rate prev (b ∷ bits) [] = ⊥
IsSent rate prev (b ∷ bits) (p ∷ pulses) =
    InBounds rate gap_bounds (p.fall - prev)
    × InBounds rate (bit_bounds b) (p.rise - p.fall)
    × IsSent rate p.rise bits pulses

-- The bits of a byte with its odd parity, the most significant first.
abbrev pub frame_bits : ℕ → List ℕ
frame_bits v =
    v / 128 % 2
    ∷ v / 64 % 2
    ∷ v / 32 % 2
    ∷ v / 16 % 2
    ∷ v / 8 % 2
    ∷ v / 4 % 2
    ∷ v / 2 % 2
    ∷ v % 2
    ∷ (v / 128 + v / 64 + v / 32 + v / 16 + v / 8 + v / 4 + v / 2 + v + 1) % 2
    ∷ []

-- What was put, but for the syncs and the single bits, and for where it stands.
pub data Shown : Type 0 where
  a_byte : ℕ → Shown
  is_right is_wrong : Shown
  a_warning : Width → Shown

abbrev pub shown : List Annotation → List Shown
shown [] = []
shown (sync ss es ∷ out) = shown out
shown (bit ss es b ∷ out) = shown out
shown (byte ss es v ∷ out) = a_byte v ∷ shown out
shown (parity_ok ss es ∷ out) = is_right ∷ shown out
shown (parity_err ss es ∷ out) = is_wrong ∷ shown out
shown (timing_warn ss es name ∷ out) = a_warning name ∷ shown out

pub shown-append : (xs ys : List Annotation) → shown (xs ++ ys) ≡ shown xs ++ shown ys
shown-append [] ys = refl
shown-append (sync ss es ∷ xs) ys = shown-append xs ys
shown-append (bit ss es b ∷ xs) ys = shown-append xs ys
shown-append (byte ss es v ∷ xs) ys = ap (λ t. a_byte v ∷ t) (shown-append xs ys)
shown-append (parity_ok ss es ∷ xs) ys = ap (λ t. is_right ∷ t) (shown-append xs ys)
shown-append (parity_err ss es ∷ xs) ys = ap (λ t. is_wrong ∷ t) (shown-append xs ys)
shown-append (timing_warn ss es name ∷ xs) ys = ap (λ t. a_warning name ∷ t) (shown-append xs ys)

shift_in_lem : (so_far b : ℕ) → b < 2 → bit_or (shl so_far 1) b ≡ so_far * 2 + b
shift_in_lem so_far b h = bit_or-shl 1 so_far b h

-- How long the wire was idle at a fall.
abbrev pub IsIdle : ℕ → ℕ → Option ℕ → Type 0
IsIdle rate fall none = zero ≡ zero
IsIdle rate fall (some end) = idle * rate ≤ (fall - end + 1) * tick

abbrev pub after : List ℕ → List ℕ → Option ℕ → Option ℕ → Decoding
after bits starts rise end = record { bits = bits; starts = starts; rise = rise; frame_end = end }

not_bit : (b : ℕ) → suc (suc b) < 2 → ⊥
not_bit b l = omega arith

module _ (rate : ℕ) (fast : tick < 80 * rate) where
  pub check-InBounds :
      (ss es : ℕ) (name : Width) (low : ℕ) (high : Option ℕ)
      → InBounds rate (low, high) (es - ss)
      → check rate ss es name (low, high) ≡ []
  unfolding check above
  check-InBounds ss es name low none h = ground (arith, h)
  check-InBounds ss es name low (some high) h = ground (arith, h)

  pub IsIdle-later :
      (fall later : ℕ) (end : Option ℕ)
      → fall ≤ later
      → IsIdle rate fall end
      → IsIdle rate later end
  IsIdle-later fall later none l h = refl
  IsIdle-later fall later (some end) l h = omega arith

  pub check_idle-Idle :
      (fall : ℕ) (bits : List ℕ) (end : Option ℕ)
      → IsIdle rate fall end
      → check_idle rate fall bits end ≡ []
  unfolding check_idle
  check_idle-Idle fall [] none h = refl
  check_idle-Idle fall (b ∷ bits) none h = refl
  check_idle-Idle fall [] (some end) h = check-InBounds end fall t_ifg idle none h
  check_idle-Idle fall (b ∷ bits) (some end) h = refl

  check_gap-InBounds :
      (fall rise : ℕ) (bits : List ℕ)
      → InBounds rate gap_bounds (fall - rise)
      → check_gap rate fall bits (some rise) ≡ []
  unfolding check_gap
  check_gap-InBounds fall rise [] h = refl
  check_gap-InBounds fall rise (b ∷ bits) h = elim (Bool-cases (ltb (length (b ∷ bits)) 9)) [
    | inl few ↦ rw few (check-InBounds rise fall t_h 180 (some 400) h)
    | inr many ↦ rw many refl
  ]

  -- A bit in its bounds is taken for what it is, without a warning.
  take_low_bit :
      (b : ℕ) (p : Pulse) (d : Decoding)
      → b < 2
      → InBounds rate (bit_bounds b) (p.rise - p.fall)
      → take_low rate p d ≡ (bit p.fall p.rise b ∷ (take_bit rate b p d).0, (take_bit rate b p d).1)
  unfolding take_low
  take_low_bit zero p d l h =
      let short : leb (500 * rate) ((p.rise - p.fall) * tick) ≡ false = ground (arith, fast, h) in
      let is_zero : leb (210 * rate) ((p.rise - p.fall) * tick) ≡ false = ground (arith, fast, h) in
      rw (short, is_zero, check-InBounds p.fall p.rise t_l0 110 (some 130) h) refl
  take_low_bit (suc zero) p d l h =
      let short : leb (500 * rate) ((p.rise - p.fall) * tick) ≡ false = ground (arith, fast, h) in
      let is_one : leb (210 * rate) ((p.rise - p.fall) * tick) ≡ true = ground (arith, fast, h) in
      rw (short, is_one, check-InBounds p.fall p.rise t_l1 290 (some 310) h) refl
  take_low_bit (suc (suc b)) p d l h = elim (not_bit b l) [ ]

  rises :
      (b : ℕ) (p : Pulse) (prev : ℕ)
      → InBounds rate gap_bounds (p.fall - prev)
      → InBounds rate (bit_bounds b) (p.rise - p.fall)
      → prev ≤ p.rise
  rises zero p prev gap low = omega (arith, fast, gap, low)
  rises (suc b) p prev gap low = omega (arith, fast, gap, low)

  -- A wire that was idle long enough still was at the rise behind a bit.
  pub IsIdle-rise :
      (b : ℕ) (p : Pulse) (prev : ℕ) (end : Option ℕ)
      → InBounds rate gap_bounds (p.fall - prev)
      → InBounds rate (bit_bounds b) (p.rise - p.fall)
      → IsIdle rate prev end
      → IsIdle rate p.rise end
  IsIdle-rise b p prev end gap low i = IsIdle-later prev p.rise end (rises b p prev gap low) i

  module _ (b : ℕ) (p : Pulse) (pulses : List Pulse) (prev : ℕ) (end : Option ℕ) where
    pub bit_turn :
        (bits starts : List ℕ)
        → b < 2
        → InBounds rate gap_bounds (p.fall - prev)
        → InBounds rate (bit_bounds b) (p.rise - p.fall)
        → IsIdle rate prev end
        → let d = after bits starts (some prev) end in
          shown (decode_from rate (p ∷ pulses) d)
          ≡ shown (take_bit rate b p d).0 ++ shown (decode_from rate pulses (take_bit rate b p d).1)
    unfolding decode_from turn
    bit_turn bits starts l gap low i =
        rw
          (
            check_gap-InBounds p.fall prev bits gap,
            check_idle-Idle p.fall bits end
                (IsIdle-later prev p.fall end (omega (arith, fast, gap)) i),
            take_low_bit b p (after bits starts (some prev) end) l low,
          )
          (shown-append (take_bit rate b p (after bits starts (some prev) end)).0
            (decode_from rate pulses (take_bit rate b p (after bits starts (some prev) end)).1))

pub frame_byte :
    (v : ℕ)
    → v < 256
    → shift_in 0 (
        v / 128 % 2
        ∷ v / 64 % 2
        ∷ v / 32 % 2
        ∷ v / 16 % 2
        ∷ v / 8 % 2
        ∷ v / 4 % 2
        ∷ v / 2 % 2
        ∷ v % 2
        ∷ [])
      ≡ v
unfolding shift_in
frame_byte v h =
    rw
      (
        shift_in_lem 0 (v / 128 % 2) (omega arith),
        shift_in_lem _ (v / 64 % 2) (omega arith),
        shift_in_lem _ (v / 32 % 2) (omega arith),
        shift_in_lem _ (v / 16 % 2) (omega arith),
        shift_in_lem _ (v / 8 % 2) (omega arith),
        shift_in_lem _ (v / 4 % 2) (omega arith),
        shift_in_lem _ (v / 2 % 2) (omega arith),
        shift_in_lem _ (v % 2) (omega arith),
      )
      (omega arith)

pub frame_parity : (v : ℕ) → v < 256 → sum (frame_bits v) % 2 ≡ 1
unfolding sum
frame_parity v h = omega arith
