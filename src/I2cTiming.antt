-- ===== src/I2cTiming.antt =====
-- demo/decoders/i2c_timing/timing.py: the bus timing of I2C, from the edges of a capture. The rate is in
-- whole Hz. A comparison of fractions is one of whole numbers, both sides times the rate, and in
-- `clock` times the frequency too. The value and the text of a result are left out.
pub mod Edges
pub mod Judge
pub mod Fastest
pub mod Order
pub mod Kept
pub mod Capture
pub mod Tests
use protocol_emulator.Base.{
  ℕ, zero, suc, ◌+◌, ◌-◌, ◌*◌, Bool, true, false, ◌&&◌, not, List, [], ◌∷◌, ◌++◌, Option, none,
  some, length, get_or, int, ltb, leb, ◌==◌, if◌then◌else◌,
}
use protocol_emulator.Base.Int.{ℤ, pos, negsuc, pos_part, neg_part, sub_ℕ, ltb_ℤ, ◌+ℤ◌}

pub data Mode : Type 0 where
  standard fast fastplus : Mode

pub data Parameter : Type 0 where
  f_scl t_hd_sta t_low t_high t_su_sta t_hd_dat t_su_dat t_r t_f t_su_sto t_buf : Parameter

-- A row of LIMITS: its three values.
unfoldable pub limits : Parameter → ℕ × ℕ × ℕ
limits f_scl = (100, 400, 1000)
limits t_hd_sta = (4000, 600, 260)
limits t_low = (4700, 1300, 500)
limits t_high = (4000, 600, 260)
limits t_su_sta = (4700, 600, 260)
limits t_hd_dat = (0, 0, 0)
limits t_su_dat = (250, 100, 50)
limits t_r = (1000, 300, 120)
limits t_f = (300, 300, 120)
limits t_su_sto = (4000, 600, 260)
limits t_buf = (4700, 1300, 500)

-- `limit(parameter, mode)[1]`
unfoldable pub limit : Parameter → Mode → ℕ
unfolding limits
limit parameter standard = (limits parameter).0
limit parameter fast = (limits parameter).1
limit parameter fastplus = (limits parameter).2

pub data Verdict : Type 0 where
  pass fail unsure : Verdict

pub record TimingResult : Type 0 where
  pub parameter : Parameter
  pub ss : ℕ
  pub es : ℕ
  pub verdict : Verdict

-- `scl` and `sda` are None until `seen`.
pub record Checker : Type 0 where
  pub rate : ℕ
  pub mode : Mode
  pub seen : Bool
  pub scl : ℕ
  pub sda : ℕ
  pub busy : Bool
  pub start : Option ℕ
  pub stop : Option ℕ
  pub rise : Option ℕ
  pub fall : Option ℕ
  pub clean : Bool
  pub changes : List ℕ
  pub falls : List ℕ
  pub stray : ℕ

unfoldable pub new_checker : ℕ → Mode → Checker
new_checker rate mode = record {
  rate = rate;
  mode = mode;
  seen = false;
  scl = 0;
  sda = 0;
  busy = false;
  start = none;
  stop = none;
  rise = none;
  fall = none;
  clean = false;
  changes = [];
  falls = [];
  stray = 0;
}

-- 10**9, the nanoseconds of a second.
abbrev pub giga : ℕ
giga = 1000000000

-- The verdict on d samples against a minimum in ns: `(d - 1) * ns >= least` as a sum.
unfoldable pub verdict_on : ℕ → ℕ → ℕ → Verdict
verdict_on rate least d =
    if ltb ((d + 1) * giga) (least * rate)
    then fail
    else if leb (least * rate + giga) (d * giga)
    then pass
    else unsure

unfoldable pub judge : Checker → Parameter → ℕ → ℕ → TimingResult
unfolding verdict_on
judge c parameter ss es = record {
  parameter = parameter;
  ss = ss;
  es = es;
  verdict = verdict_on c.rate (limit parameter c.mode) (es - ss);
}

-- The loop of `clock`. A nanosecond counts rate * khz here.
pub record Scan : Type 0 where
  pub worst : ℤ
  pub here : ℤ
  pub first : ℕ
  pub run : Option (ℕ × ℕ)

-- `(falls[i] - falls[i - 1]) * ns - period`
abbrev pub excess : ℕ → ℕ → ℕ → ℤ
excess rate khz gap = sub_ℕ (gap * (giga * khz)) (1000000 * rate)

unfoldable pub scan_turn : ℕ → ℕ → ℕ → ℕ → ℕ → Scan → Scan
scan_turn rate khz i before fall s =
    let anew = ltb_ℤ (pos 0) s.here in
    let first' = if anew then i - 1 else s.first in
    let here' = (if anew then pos 0 else s.here) +ℤ excess rate khz (fall - before) in
    if ltb_ℤ here' s.worst
    then record { worst = here'; here = here'; first = first'; run = some (first', i) }
    else record s { here = here'; first = first' }

unfoldable pub scan_from : ℕ → ℕ → ℕ → ℕ → List ℕ → Scan → Scan
unfolding scan_turn
scan_from rate khz i before [] s = s
scan_from rate khz i before (fall ∷ falls) s =
    scan_from rate khz (i + 1) fall falls (scan_turn rate khz i before fall s)

unfoldable pub scan : ℕ → ℕ → List ℕ → Scan
unfolding scan_from
scan rate khz [] = record { worst = pos 0; here = pos 0; first = 0; run = none }
scan rate khz (fall ∷ falls) =
    scan_from rate khz 1 fall falls (record { worst = pos 0; here = pos 0; first = 0; run = none })

-- `run is not None and worst + self.ns < 0`; the worst is 0 as long as there is no run.
unfoldable pub is_fast : ℕ → Scan → Bool
is_fast khz s = ltb_ℤ (s.worst +ℤ pos (giga * khz)) (pos 0)

unfoldable pub fscl_result : ℕ → ℕ → List ℕ → Scan → TimingResult
unfolding is_fast
fscl_result rate khz falls s = elim s.run [
  | none ↦ whole
  | some (i, j) ↦
      if is_fast khz s
      then record {
        parameter = f_scl;
        ss = get_or falls i 0;
        es = get_or falls j 0;
        verdict = fail;
      }
      else whole
]
  where
    periods : ℕ
    periods = length falls - 1

    first : ℕ
    first = get_or falls 0 0

    last : ℕ
    last = get_or falls periods 0

    whole : TimingResult
    whole = record {
      parameter = f_scl;
      ss = first;
      es = last;
      verdict =
          if leb (periods * (1000000 * rate) + giga * khz) ((last - first) * (giga * khz))
          then pass
          else unsure;
    }

unfoldable pub clock : Checker → List TimingResult
unfolding fscl_result scan
clock c =
    let khz = limit f_scl c.mode in
    if ltb (length c.falls) 2
    then []
    else fscl_result c.rate khz c.falls (scan c.rate khz c.falls) ∷ []
