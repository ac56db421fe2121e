-- ===== src/Plinkoo.antt =====
-- demo/decoders/plinkoo/pd.py: the decoder of the PLK-2 bus. The edges that sigrok's `wait` finds behind the
-- first high of STB are given; the first of STB is a fall. Times are samples, the rate is in whole Hz, and the
-- limits are in units of 10 ns.
pub mod Symbols
pub mod Bytes
pub mod Kept
pub mod Bits
pub mod Quiet
pub mod Decoded
pub mod Tests
use protocol_emulator.Base.{
  ℕ, zero, suc, ◌+◌, ◌-◌, ◌*◌, ◌%◌, Bool, true, false, ◌&&◌, ◌||◌, not, List, [], ◌∷◌, ◌++◌, Option,
  none, some, ltb, leb, ◌==◌, length, drop, if◌then◌else◌,
}
use protocol_emulator.Base.Slices.{pieces}
use protocol_emulator.Snorble.{tick, shift_in, sum, first_or}

pub data Warning : Type 0 where
  t_dh t_syn t_b t_ds : Warning
  length_warn : ℕ → Warning

-- What the decoder puts: from a sample to a sample.
pub data Annotation : Type 0 where
  sync ack nack checksum_ok checksum_err : ℕ → ℕ → Annotation
  bit packet_length byte : ℕ → ℕ → ℕ → Annotation
  warn : ℕ → ℕ → Warning → Annotation

-- An edge of either pin, with the levels behind it; `matched_stb` is `matched[0]`.
pub record Edge : Type 0 where
  pub at : ℕ
  pub stb : ℕ
  pub dat : ℕ
  pub matched_stb : Bool

-- The variables of `decode`; `sync_low` is 16 of `bit`, in samples.
pub record Reading : Type 0 where
  pub sync_low : Option ℕ
  pub bits : List ℕ
  pub starts : List ℕ
  pub length_byte : Option ℕ
  pub last_rise : Option ℕ
  pub dat_moved : Option ℕ
  pub dat : ℕ
  pub fall : ℕ

abbrev pub at_start : Reading
at_start = record {
  sync_low = none;
  bits = [];
  starts = [];
  length_byte = none;
  last_rise = none;
  dat_moved = none;
  dat = 1;
  fall = 0;
}

unfoldable pub is_complete : Option ℕ → List ℕ → Bool
is_complete none bits = false
is_complete (some n) bits = length bits == 8 * (n + 2)

-- `xs[-8:]`
abbrev pub last_eight : List ℕ → List ℕ
last_eight xs = drop (length xs - 8) xs

unfoldable pub byte_sum : List (List ℕ) → ℕ
unfolding shift_in
byte_sum [] = 0
byte_sum (bits ∷ rest) = shift_in 0 bits + byte_sum rest

unfoldable pub total : List ℕ → ℕ
unfolding byte_sum
total bits = byte_sum (pieces 8 bits)

-- What a byte completes.
unfoldable pub take_byte : ℕ → ℕ → Reading → List Annotation × Reading
unfolding shift_in first_or total
take_byte ss rise r =
    let v = shift_in 0 (last_eight r.bits) in
    elim r.length_byte [
      | none ↦
          if not (leb 1 v && leb v 8)
          then (warn ss rise (length_warn v) ∷ [], record r { sync_low = none })
          else (packet_length ss rise v ∷ [], record r { length_byte = some v })
      | some n ↦ if ltb (length r.bits) (8 * (n + 2)) then (byte ss rise v ∷ [], r) else (
        (if total r.bits % 256 == 0 then checksum_ok ss rise else checksum_err ss rise) ∷ [],
        r,
      )
    ]

unfoldable pub take_bit : Edge → Reading → List Annotation × Reading
unfolding take_byte is_complete first_or
take_bit e r =
    let r' = record r { bits = r.bits ++ r.dat ∷ []; starts = r.starts ++ r.fall ∷ [] } in
    let (marks, r'') = take_byte (first_or 0 (last_eight r'.starts)) e.at r' in
    if is_complete r.length_byte r.bits
    then (
      (if r.dat == 0 then ack r.fall e.at else nack r.fall e.at) ∷ [],
      record r { sync_low = none },
    )
    else if not (length r'.bits % 8 == 0)
    then (bit r.fall e.at r.dat ∷ [], r')
    else (bit r.fall e.at r.dat ∷ marks, r'')

module _ (rate : ℕ) where
  -- More than 6 % and a sample off a 16th of the sync.
  unfoldable pub check_period : ℕ → ℕ → Option ℕ → List Annotation
  check_period rise sync_low none = []
  check_period rise sync_low (some last) =
      let period = 16 * (rise - last) in
      if ltb (6 * sync_low + 1600) (100 * ((period - sync_low) + (sync_low - period)))
      then warn last rise t_b ∷ []
      else []

  unfoldable pub check_setup : ℕ → Option ℕ → List Annotation
  check_setup rise none = []
  check_setup rise (some moved) =
      if ltb ((rise - moved + 1) * tick) (12 * rate) then warn moved rise t_ds ∷ [] else []

  unfoldable pub check_hold : ℕ → Option ℕ → Option ℕ → List Annotation
  check_hold now (some last) (some sync_low) =
      if ltb ((now - last + 1) * tick) (8 * rate) then warn last now t_dh ∷ [] else []
  check_hold now last sync_low = []

  unfoldable pub check_sync : ℕ → ℕ → List Annotation
  check_sync fall rise =
      let low = rise - fall in
      if ltb ((low + 1) * tick) (480 * rate) || ltb (520 * rate + tick) (low * tick)
      then warn fall rise t_syn ∷ []
      else []

  unfoldable pub move_dat : Edge → Reading → List Annotation × Reading
  unfolding check_hold
  move_dat e r =
      if e.dat == r.dat
      then ([], r)
      else (check_hold e.at r.last_rise r.sync_low, record r { dat = e.dat; dat_moved = some e.at })

  -- A rise of a bit, where the sync is known.
  unfoldable pub take_known : Option ℕ → Edge → Reading → List Annotation × Reading
  unfolding take_bit check_period check_setup
  take_known none e r = ([], r)
  take_known (some sync_low) e r =
      let (marks, r') = take_bit e (record r { last_rise = some e.at }) in
      (check_period e.at sync_low r.last_rise ++ (check_setup e.at r.dat_moved ++ marks), r')

  unfoldable pub take_rise : Edge → Reading → List Annotation × Reading
  unfolding take_known check_sync
  take_rise e r =
      if leb (100 * rate) ((e.at - r.fall) * tick)
      then (
        check_sync r.fall e.at ++ sync r.fall e.at ∷ [],
        record r {
          sync_low = some (e.at - r.fall);
          bits = [];
          starts = [];
          length_byte = none;
          last_rise = none;
        },
      )
      else take_known r.sync_low e r

  unfoldable pub take_strobe : Edge → Reading → List Annotation × Reading
  unfolding take_rise
  take_strobe e r =
      if not e.matched_stb
      then ([], r)
      else if e.stb == 0
      then ([], record r { fall = e.at })
      else take_rise e r

  -- A turn of the loop of `decode`.
  unfoldable pub turn : Edge → Reading → List Annotation × Reading
  unfolding move_dat take_strobe
  turn e r =
      let (warnings, r') = move_dat e r in
      let (marks, r'') = take_strobe e r' in (warnings ++ marks, r'')

  unfoldable pub decode_from : List Edge → Reading → List Annotation
  unfolding turn
  decode_from [] r = []
  decode_from (e ∷ edges) r = let (marks, r') = turn e r in marks ++ decode_from edges r'

-- `decode` raises where there is no sample rate.
unfoldable pub decode : Option ℕ → List Edge → Option (List Annotation)
unfolding decode_from
decode none edges = none
decode (some zero) edges = none
decode (some (suc rate)) edges = some (decode_from (suc rate) edges at_start)
