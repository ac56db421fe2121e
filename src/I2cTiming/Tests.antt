-- ===== src/I2cTiming/Tests.antt =====
-- The checker on a transaction seen at 1 MHz.
use protocol_emulator.Base.{ℕ, ◌≡◌, ◌↔◌, refl, List, [], ◌∷◌, map, arith, none, true, false}
use protocol_emulator.Base.Int.{◌+ℤ◌}
use protocol_emulator.I2cTiming.{
  standard, Verdict, pass, fail, TimingResult, Parameter, verdict_on, new_checker, Checker, judge,
  clock, limit, f_scl, t_hd_sta, t_low, t_high, t_su_sto, t_hd_dat, t_su_dat,
}
use protocol_emulator.I2cTiming.Edges.{check_edges}
use protocol_emulator.I2cTiming.Judge.{Holds, verdict_on-Holds}
use protocol_emulator.I2cTiming.Fastest.{TooFast, clock-fail}
use protocol_emulator.I2cTiming.Order.{AllInOrder}
use protocol_emulator.I2cTiming.Capture.{check_edges-AllInOrder}

-- A START, a bit with SDA raised while SCL is low, and a STOP: a sample is a microsecond.
abbrev edges : List (ℕ × ℕ × ℕ)
edges =
    (0, 1, 1)
    ∷ (10, 1, 0)
    ∷ (20, 0, 0)
    ∷ (22, 0, 1)
    ∷ (24, 0, 0)
    ∷ (30, 1, 0)
    ∷ (36, 0, 0)
    ∷ (45, 1, 0)
    ∷ (55, 1, 1)
    ∷ []

abbrev seen : TimingResult → Parameter × ℕ × ℕ × Verdict
seen r = (r.parameter, r.ss, r.es, r.verdict)

check_test :
    map seen (check_edges edges (new_checker 1000000 standard)).1
    ≡ (t_hd_sta, 10, 20, pass)
      ∷ (t_low, 20, 30, pass)
      ∷ (t_hd_dat, 20, 22, pass)
      ∷ (t_su_dat, 24, 30, pass)
      ∷ (t_high, 30, 36, pass)
      ∷ (t_low, 36, 45, pass)
      ∷ (t_su_sto, 45, 55, pass)
      ∷ (f_scl, 20, 36, pass)
      ∷ []
unfolding check_edges new_checker judge clock limit ◌+ℤ◌
check_test = refl

check_edges-AllInOrder_example : AllInOrder 55 (check_edges edges (new_checker 1000000 standard)).1
check_edges-AllInOrder_example = check_edges-AllInOrder 1000000 standard 0 55 edges (omega arith)

-- An SCL that is low from 3.2 to 6.7 of samples that take 10 each, at 1 MHz: seen from 4 to 7.
verdict_on-Holds_example : Holds 1000000 4700 10 32 67 (verdict_on 1000000 4700 3)
verdict_on-Holds_example =
    verdict_on-Holds 1000000 4700 10 32 67 4 7 (omega arith) (omega arith) (omega arith)
      (omega arith, omega arith) (omega arith, omega arith)

abbrev rushed : Checker
rushed = record {
  rate = 1000000;
  mode = standard;
  seen = true;
  scl = 0;
  sda = 0;
  busy = true;
  start = none;
  stop = none;
  rise = none;
  fall = none;
  clean = false;
  changes = [];
  falls = 0 ∷ 30 ∷ 35 ∷ 40 ∷ 80 ∷ [];
  stray = 0;
}

-- The mean is slow enough, but two periods in a row are not.
clock-fail_example :
    (r : TimingResult) × (clock rushed ≡ r ∷ [])
    × ((r.verdict ≡ fail) ↔ TooFast 1000000 100 (0 ∷ 30 ∷ 35 ∷ 40 ∷ 80 ∷ []))
unfolding limit
clock-fail_example = clock-fail rushed 0 (30 ∷ 35 ∷ 40 ∷ 80 ∷ []) refl (omega arith)

rushed_test : map seen (clock rushed) ≡ (f_scl, 30, 40, fail) ∷ []
unfolding clock limit ◌+ℤ◌
rushed_test = refl
