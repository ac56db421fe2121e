-- ===== src/I2cTiming/Edges.antt =====
-- demo/decoders/i2c_timing/timing.py: what `Checker` does with each change of the lines.
use protocol_emulator.Base.{
  ℕ, ◌+◌, Bool, true, false, ◌&&◌, not, List, [], ◌∷◌, ◌++◌, Option, none, some, int, ltb, ◌==◌,
  if◌then◌else◌,
}
use protocol_emulator.I2cTiming.{
  Checker, Parameter, TimingResult, judge, clock, t_hd_sta, t_high, t_low, t_hd_dat, t_su_dat,
  t_su_sta, t_buf, t_su_sto,
}

-- A result from an instant that is there.
unfoldable pub judge_if : Checker → Parameter → Option ℕ → ℕ → List TimingResult
judge_if c parameter none at = []
judge_if c parameter (some from) at = judge c parameter from at ∷ []

abbrev pub is_given : Option ℕ → Bool
is_given none = false
is_given (some _) = true

-- The branches of `_sda`: SDA moves while SCL is low, a START, a STOP.
unfoldable pub take_change : ℕ → Checker → Checker × List TimingResult
take_change at c = (if c.busy then record c { changes = c.changes ++ at ∷ [] } else c, [])

unfoldable pub take_start : ℕ → Checker → Checker × List TimingResult
unfolding judge_if
take_start at c = (
  record c { busy = true; start = some at; clean = false },
  (if c.busy && is_given c.rise
      then judge_if c t_su_sta c.rise at
      else if not c.busy && is_given c.stop
      then judge_if c t_buf c.stop at
      else []),
)

unfoldable pub take_stop : ℕ → Checker → Checker × List TimingResult
unfolding judge_if
take_stop at c = (
  record c {
    busy = false;
    start = none;
    stop = some at;
    clean = false;
    falls = if c.busy then [] else c.falls;
  },
  (if c.busy then judge_if c t_su_sto c.rise at ++ clock c else []),
)

unfoldable pub on_sda : ℕ → ℕ → Checker → Checker × List TimingResult
unfolding take_change take_start take_stop
on_sda at sda c =
    let c' = record c { sda = sda } in
    if c'.scl == 0
    then take_change at c'
    else if sda == 0
    then take_start at c'
    else take_stop at c'

-- The branches of `_scl`.
unfoldable pub take_fall : ℕ → Checker → Checker × List TimingResult
unfolding judge_if
take_fall at c = (
  record c {
    start = none;
    fall = some at;
    changes = [];
    falls = if c.busy then c.falls ++ at ∷ [] else c.falls;
  },
  (if c.busy
      then (if is_given c.start
          then judge_if c t_hd_sta c.start at
          else if c.clean && is_given c.rise
          then judge_if c t_high c.rise at
          else [])
      else []),
)

abbrev pub last_or : ℕ → List ℕ → ℕ
last_or x [] = x
last_or x (y ∷ ys) = last_or y ys

-- `tHD;DAT` and `tSU;DAT`, if SDA moved while SCL was low.
unfoldable pub data_results : Checker → Option ℕ → List ℕ → ℕ → List TimingResult
data_results c (some fall) (x ∷ xs) at =
    judge c t_hd_dat fall x ∷ judge c t_su_dat (last_or x xs) at ∷ []
data_results c _ _ at = []

unfoldable pub take_rise : ℕ → Checker → Checker × List TimingResult
unfolding judge_if data_results
take_rise at c = (
  record c { rise = some at; clean = true },
  (if c.busy then judge_if c t_low c.fall at ++ data_results c c.fall c.changes at else []),
)

unfoldable pub on_scl : ℕ → ℕ → Checker → Checker × List TimingResult
unfolding take_fall take_rise
on_scl at scl c =
    let c' = record c { scl = scl; stray = c.stray + int (not c.busy) } in
    if scl == 0 then take_fall at c' else take_rise at c'

-- The three tests of `edge`, once the lines were seen.
unfoldable pub fall_first : ℕ → ℕ → Checker → Checker × List TimingResult
unfolding on_scl
fall_first at scl c = if ltb scl c.scl then on_scl at scl c else (c, [])

unfoldable pub then_data : ℕ → ℕ → Checker × List TimingResult → Checker × List TimingResult
unfolding on_sda
then_data at sda (c, out) =
    if sda == c.sda then (c, out) else (let (d, more) = on_sda at sda c in (d, out ++ more))

unfoldable pub rise_last : ℕ → ℕ → Checker × List TimingResult → Checker × List TimingResult
unfolding on_scl
rise_last at scl (c, out) =
    if ltb c.scl scl then (let (d, more) = on_scl at scl c in (d, out ++ more)) else (c, out)

unfoldable pub edge : ℕ → ℕ → ℕ → Checker → Checker × List TimingResult
unfolding fall_first then_data rise_last
edge at scl sda c =
    if c.seen
    then rise_last at scl (then_data at sda (fall_first at scl c))
    else (record c { seen = true; scl = scl; sda = sda }, [])

-- `finish`
unfoldable pub finish : Checker → Checker × List TimingResult
finish c = (record c { falls = [] }, clock c)

-- All edges of a capture, and the end.
unfoldable pub check_edges : List (ℕ × ℕ × ℕ) → Checker → Checker × List TimingResult
unfolding edge finish
check_edges [] c = finish c
check_edges ((at, scl, sda) ∷ edges) c =
    let (d, out) = edge at scl sda c in let (e, more) = check_edges edges d in (e, out ++ more)
