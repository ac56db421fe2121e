-- ===== src/Snorble.antt =====
-- demo/decoders/snorble/pd.py: the decoder of the SNB-1 beacon. What sigrok's `wait` finds is given: the lows
-- of the wire, each from a fall to a rise, behind the first high. Times are samples, the rate is in whole Hz,
-- and the limits are in units of 10 ns.
pub mod Beacon
pub mod Stream
pub mod Tests
use protocol_emulator.Base.{
  ℕ, zero, suc, ◌+◌, ◌-◌, ◌*◌, ◌%◌, Bool, true, false, ◌&&◌, ◌||◌, not, List, [], ◌∷◌, ◌++◌, Option,
  none, some, bit_or, ltb, leb, ◌==◌, length, int, if◌then◌else◌,
}
use protocol_emulator.Base.Bits.{shl}

-- 10 ns, as a part of a second
abbrev pub tick : ℕ
tick = 100000000

abbrev pub Bounds : Type 0
Bounds = ℕ × Option ℕ

abbrev pub sync_bounds : Bounds
sync_bounds = (750, some 850)

abbrev pub zero_bounds : Bounds
zero_bounds = (110, some 130)

abbrev pub one_bounds : Bounds
one_bounds = (290, some 310)

abbrev pub gap_bounds : Bounds
gap_bounds = (180, some 400)

abbrev pub idle : ℕ
idle = 2000

pub data Width : Type 0 where
  t_h t_ifg t_syn t_l1 t_l0 : Width

-- What the decoder puts: from a sample to a sample.
pub data Annotation : Type 0 where
  sync : ℕ → ℕ → Annotation
  bit : ℕ → ℕ → ℕ → Annotation
  byte : ℕ → ℕ → ℕ → Annotation
  parity_ok parity_err : ℕ → ℕ → Annotation
  timing_warn : ℕ → ℕ → Width → Annotation

-- A low of the wire.
pub record Pulse : Type 0 where
  pub fall : ℕ
  pub rise : ℕ

-- The variables of `decode`.
pub record Decoding : Type 0 where
  pub bits : List ℕ
  pub starts : List ℕ
  pub rise : Option ℕ
  pub frame_end : Option ℕ

abbrev pub at_start : Decoding
at_start = record { bits = []; starts = []; rise = none; frame_end = none }

unfoldable pub above : ℕ → ℕ → Option ℕ → Bool
above rate width none = false
above rate width (some high) = ltb (high * rate + tick) (width * tick)

unfoldable pub sum : List ℕ → ℕ
sum [] = 0
sum (b ∷ bits) = b + sum bits

-- The bits shifted into a byte, from one on.
unfoldable pub shift_in : ℕ → List ℕ → ℕ
shift_in so_far [] = so_far
shift_in so_far (b ∷ bits) = shift_in (bit_or (shl so_far 1) b) bits

unfoldable pub first_or : ℕ → List ℕ → ℕ
first_or other [] = other
first_or other (start ∷ starts) = start

module _ (rate : ℕ) where
  unfoldable pub check : ℕ → ℕ → Width → Bounds → List Annotation
  unfolding above
  check ss es name (low, high) =
      if ltb ((es - ss + 1) * tick) (low * rate) || above rate (es - ss) high
      then timing_warn ss es name ∷ []
      else []

  -- What is checked at a fall.
  unfoldable pub check_gap : ℕ → List ℕ → Option ℕ → List Annotation
  unfolding check
  check_gap fall (b ∷ bits) (some rise) =
      if ltb (length (b ∷ bits)) 9 then check rise fall t_h gap_bounds else []
  check_gap fall bits rise = []

  unfoldable pub check_idle : ℕ → List ℕ → Option ℕ → List Annotation
  unfolding check
  check_idle fall [] (some end) = check end fall t_ifg (idle, none)
  check_idle fall bits frame_end = []

  -- A bit, with what it completes.
  unfoldable pub take_bit : ℕ → Pulse → Decoding → List Annotation × Decoding
  unfolding shift_in sum first_or
  take_bit one p d =
      let bits' = d.bits ++ one ∷ [] in
      let starts' = d.starts ++ p.fall ∷ [] in
      if length bits' == 8
      then (
        byte (first_or 0 starts') p.rise (shift_in 0 bits') ∷ [],
        record { bits = bits'; starts = starts'; rise = some p.rise; frame_end = d.frame_end },
      )
      else if length bits' == 9
      then (
        (if sum bits' % 2 == 1 then parity_ok p.fall p.rise else parity_err p.fall p.rise) ∷ [],
        record { bits = []; starts = []; rise = some p.rise; frame_end = some p.rise },
      )
      else (
        [],
        record { bits = bits'; starts = starts'; rise = some p.rise; frame_end = d.frame_end },
      )

  unfoldable pub take_low : Pulse → Decoding → List Annotation × Decoding
  unfolding check take_bit
  take_low p d =
      let width = p.rise - p.fall in
      if leb (500 * rate) (width * tick)
      then (
        check p.fall p.rise t_syn sync_bounds ++ sync p.fall p.rise ∷ [],
        record { bits = []; starts = []; rise = some p.rise; frame_end = d.frame_end },
      )
      else (let one = leb (210 * rate) (width * tick) in
          let (marks, d') = take_bit (int one) p d in
          (
            check p.fall p.rise (if one then t_l1 else t_l0)
                  (if one then one_bounds else zero_bounds)
                ++ (bit p.fall p.rise (int one) ∷ marks),
            d',
          ))

  -- A turn of the loop of `decode`.
  unfoldable pub turn : Pulse → Decoding → List Annotation × Decoding
  unfolding check_gap check_idle take_low
  turn p d =
      let (marks, d') = take_low p d in
      (check_gap p.fall d.bits d.rise ++ (check_idle p.fall d.bits d.frame_end ++ marks), d')

  unfoldable pub decode_from : List Pulse → Decoding → List Annotation
  unfolding turn
  decode_from [] d = []
  decode_from (p ∷ pulses) d = let (marks, d') = turn p d in marks ++ decode_from pulses d'

-- `decode` raises where there is no sample rate.
unfoldable pub decode : Option ℕ → List Pulse → Option (List Annotation)
unfolding decode_from
decode none pulses = none
decode (some zero) pulses = none
decode (some (suc rate)) pulses = some (decode_from (suc rate) pulses at_start)
