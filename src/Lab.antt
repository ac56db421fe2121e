-- ===== src/Lab.antt =====
-- demo/lab.py: which jobs the remote lab takes to the bench. The files that a worker keeps are lists here,
-- and what the checker and the bench make of a job comes with the job. Times are in microseconds.
pub mod Worker
pub mod Count
pub mod Admitted
pub mod Compare
pub mod Tests
use Prim.Native.String.{String}
use text.Mathlib.Text.{◌==◌ as str_eq}
use protocol_emulator.Base.{
  ℕ, zero, suc, ◌+◌, ◌-◌, ◌*◌, Bool, true, false, ◌&&◌, ◌||◌, not, List, [], ◌∷◌, ◌++◌, Option,
  none, some, ltb, leb, ◌==◌, if◌then◌else◌,
}

-- The run that a job got; `no_run` is None.
pub data Run : Type 0 where
  bench rtl model duplicate no_run : Run

-- A row of admitted.tsv.
pub record Row : Type 0 where
  pub at : ℕ
  pub who : String
  pub ident : ℕ
  pub run : Run

pub record Limits : Type 0 where
  pub jobs_hour : ℕ
  pub bench_hour : ℕ
  pub bench_day : ℕ
  pub all_bench_hour : ℕ

abbrev pub hour : ℕ
hour = 3600000000

abbrev pub day : ℕ
day = 86400000000

unfoldable pub on_bench : Run → Bool
on_bench bench = true
on_bench rtl = true
on_bench _ = false

unfoldable pub is_from : Option String → Row → Bool
is_from none r = true
is_from (some who) r = str_eq r.who who

-- The test of `count` on a row.
unfoldable pub counts : ℕ → ℕ → Option String → Bool → Row → Bool
unfolding on_bench is_from
counts now span who only_bench r =
    ltb now (r.at + span) && (is_from who r && (not only_bench || on_bench r.run))

unfoldable pub count : ℕ → ℕ → Option String → Bool → List Row → ℕ
count now span who only_bench [] = 0
count now span who only_bench (r ∷ rows) =
    (if counts now span who only_bench r then 1 else 0) + count now span who only_bench rows

-- Why a job is not checked, or gets the model.
pub data Reason : Type 0 where
  too_many_jobs : ℕ → Reason
  too_many_runs : ℕ → Option String → ℕ → Reason
  bench_declines model_alone is_down not_healthy run_failed : Reason

module _ (limits : Limits) where
  unfoldable pub jobs : String → ℕ → List Row → Option Reason
  jobs who now rows =
      let n = count now hour (some who) false rows in
      if leb limits.jobs_hour n then some (too_many_jobs n) else none

  unfoldable pub bench_from : ℕ → List Row → List (ℕ × ℕ × Option String) → Option Reason
  bench_from now rows [] = none
  bench_from now rows ((span, most, who) ∷ rest) =
      let n = count now span who true rows in
      let next = bench_from now rows rest in
      if leb most n then some (too_many_runs n who span) else next

  unfoldable pub bench_limit : String → ℕ → List Row → Option Reason
  unfolding bench_from
  bench_limit who now rows = bench_from now rows (
      (hour, limits.bench_hour, some who)
      ∷ (day, limits.bench_day, some who)
      ∷ (hour, limits.all_bench_hour, none)
      ∷ [])
