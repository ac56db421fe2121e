-- ===== src/Lab/Worker.antt =====
-- demo/lab.py: `Worker.choose` and what `Worker.process` decides.
use Prim.Native.String.{String}
use protocol_emulator.Base.{
  ℕ, ◌+◌, Bool, true, false, ◌&&◌, ◌||◌, not, List, [], ◌∷◌, ◌++◌, Option, none, some, ltb, leb,
  ◌==◌, if◌then◌else◌,
}
use protocol_emulator.Lab.{
  Run, bench, rtl, model, duplicate, no_run, Row, Limits, Reason, bench_declines, model_alone,
  is_down, not_healthy, jobs, bench_limit,
}

abbrev pub down_after : ℕ
down_after = 2

-- `DOWN_S`, in microseconds
abbrev pub down_span : ℕ
down_span = 1800000000

pub data LabVerdict : Type 0 where
  rate_limited malformed certified refused : LabVerdict

-- A submission as it turns out: `checked` is the checker's verdict, with whether the bench takes the
-- job, and none where the checker failed.
pub record Job : Type 0 where
  pub now : ℕ
  pub who : String
  pub ident : ℕ
  pub is_text : Bool
  pub checked : Option (LabVerdict × Bool)
  pub healthy : Bool
  pub run_ok : Bool

pub record Worker : Type 0 where
  pub rows : List Row
  pub errors : ℕ
  pub down_until : ℕ
  pub sealed : List ℕ

-- The backend of a worker: the bench, the RTL, or none.
pub data Backend : Type 0 where
  on_bench on_rtl no_backend : Backend

unfoldable pub backend_run : Backend → Run
backend_run on_bench = bench
backend_run on_rtl = rtl
backend_run no_backend = model

unfoldable pub has_backend : Backend → Bool
has_backend no_backend = false
has_backend _ = true

unfoldable pub is_sealed : ℕ → List ℕ → Bool
is_sealed ident [] = false
is_sealed ident (i ∷ is) = (i == ident) || is_sealed ident is

abbrev pub is_given {ℓ} : {A : Type ℓ} → Option A → Bool
is_given none = false
is_given (some _) = true

unfoldable pub is_certified : LabVerdict → Bool
is_certified certified = true
is_certified _ = false

unfoldable pub is_rate_limited : LabVerdict → Bool
is_rate_limited rate_limited = true
is_rate_limited _ = false

unfoldable pub is_model : Run → Bool
is_model model = true
is_model _ = false

module _ (limits : Limits) (backend : Backend) where
  unfoldable pub choose : Bool → Job → Worker → Run × Option Reason
  unfolding backend_run has_backend
  choose takes j w =
      if not takes
      then (model, some bench_declines)
      else if not (has_backend backend)
      then (model, some model_alone)
      else elim (bench_limit limits j.who j.now w.rows) [
        | some why ↦ (model, some why)
        | none ↦
            if ltb j.now w.down_until
            then (model, some is_down)
            else if j.healthy
            then (backend_run backend, none)
            else (model, some not_healthy)
      ]

  -- The verdict of `process`, and whether the bench takes the job.
  unfoldable pub verdict_of : Job → Worker → LabVerdict × Bool
  verdict_of j w =
      if is_given (jobs limits j.who j.now w.rows)
      then (rate_limited, false)
      else if not j.is_text
      then (malformed, false)
      else elim j.checked [ some (verdict, takes) ↦ (verdict, takes) | none ↦ (malformed, false) ]

  unfoldable pub log : Job → Run → Worker → Worker
  log j run w = record w {
    rows = w.rows ++ record { at = j.now; who = j.who; ident = j.ident; run = run } ∷ [];
  }

  -- A run on the backend, which may fail, and then counts as the model's.
  unfoldable pub run_backend : Job → Run → Worker → Worker × Run
  run_backend j run w =
      let errors' = if j.run_ok then 0 else w.errors + 1 in
      (
        record w {
          errors = errors';
          down_until = if leb down_after errors' then j.now + down_span else w.down_until;
        },
        (if j.run_ok then run else model),
      )

  unfoldable pub run_of : Bool → Job → Worker → Worker × Run
  unfolding choose run_backend is_model
  run_of takes j w =
      let run = (choose takes j w).0 in if is_model run then (w, run) else run_backend j run w

  unfoldable pub process : Job → Worker → Worker
  unfolding verdict_of run_of log is_certified is_rate_limited is_sealed
  process j w =
      let (verdict, takes) = verdict_of j w in
      if is_sealed j.ident w.sealed && not (is_rate_limited verdict)
      then log j duplicate w
      else (let (w', run) = if is_certified verdict then run_of takes j w else (w, no_run) in
          let w'' = log j run w' in record w'' { sealed = j.ident ∷ w''.sealed })
