-- ===== src/Learn/Record.antt =====
-- python/learn_record.py: `load`, `record` and the verdict of `run`.
use protocol_emulator.Base.{
  ℕ, zero, suc, ◌+◌, true, false, List, [], ◌∷◌, ◌++◌, map, none, bit_and, int, ltb, if◌then◌else◌,
  M, pure, raise, ◌>>=◌, ◌>>◌, out_of_fuel, ok, err,
}
use protocol_emulator.Base.Int.{pos, ltb_ℤ}
use protocol_emulator.Host.Port.{Port, host}
use protocol_emulator.Host.Registers.{status_reg}
use protocol_emulator.Host.Config.{default_config}
use protocol_emulator.Host.Methods.{select, stop, flush, configure, load, certify, start, read_one}
use protocol_emulator.Learn.{Pico, Logger, Line, poll, take_drain, is_late, ticks_diff}

-- `sorted(engines, key=lambda e: -e["engine"])`, which keeps the order of equals.
insert : Logger → List Logger → List Logger
insert e [] = e ∷ []
insert e (f ∷ fs) = if ltb e.engine f.engine then f ∷ insert e fs else e ∷ f ∷ fs

unfoldable pub sorted : List Logger → List Logger
unfolding insert
sorted [] = []
sorted (e ∷ es) = insert e (sorted es)

-- `words, times, late, faults`
pub record Recording : Type 0 where
  pub lines : List Line
  pub late : ℕ
  pub faults : List ℕ

module _ (P : Pico) where
  open P use {State, ticks_ms, ticks_us}

  abbrev pico_port : Port
  pico_port = host (record { State = P.State; transfer = P.transfer })

  unfoldable pub load_logger : ℕ → Logger → M State (Unit {0})
  load_logger fuel e = do
    select pico_port e.engine
    stop pico_port
    flush pico_port
    configure pico_port (e.config ++ default_config)
    load pico_port e.words 0
    certify pico_port fuel e.certificate 0 none false false

  unfoldable pub load_loggers : ℕ → List Logger → M State (Unit {0})
  load_loggers fuel [] = pure tt
  load_loggers fuel (e ∷ es) = load_logger fuel e >> load_loggers fuel es

  unfoldable pub start_loggers : List Logger → M State (Unit {0})
  start_loggers [] = pure tt
  start_loggers (e ∷ es) = (do select pico_port e.engine; start pico_port) >> start_loggers es

  -- `for k in range(n)`
  unfoldable pub round : List Line → ℕ → M State (List Line × ℕ)
  round [] late s = pure ([], late) s
  round (l ∷ ls) late s =
      let ((words, now), s1) = poll P l.engine s in
      let (t, s2) = ticks_us s1 in
      elim (take_drain words now t l) [
        | ok l' ↦ (round ls (late + int (is_late words t l)) >>= λ r. pure (l' ∷ r.0, r.1)) s2
        | err e ↦ (err e, s2)
      ]

  -- `while time.ticks_diff(time.ticks_ms(), start) < ms`
  unfoldable pub rounds : ℕ → ℕ → ℕ → List Line → ℕ → M State (List Line × ℕ)
  unfolding round
  rounds zero from ms ls late s = raise out_of_fuel s
  rounds (suc fuel) from ms ls late s =
      let (t, s1) = ticks_ms s in
      elim (ltb_ℤ (ticks_diff t from) (pos ms)) [
        | true ↦ (round ls late >>= λ r. rounds fuel from ms r.0 r.1) s1
        | false ↦ pure (ls, late) s1
      ]

  unfoldable pub faults_of : List Logger → M State (List ℕ)
  unfolding read_one
  faults_of [] = pure []
  faults_of (e ∷ es) = do
    select pico_port e.engine
    status ← read_one pico_port status_reg
    stop pico_port
    rest ← faults_of es
    pure (bit_and status 0x3c ∷ rest)

  new_line : ℕ → Logger → Line
  new_line t e = record {
    engine = e.engine;
    words = [];
    times = [];
    last = 0;
    clock = 0;
    then_us = t;
  }

  us_and_ms : M State (ℕ × ℕ)
  us_and_ms s = let (us, s1) = ticks_us s in let (ms, s2) = ticks_ms s1 in pure (us, ms) s2

  pub record_edges : ℕ → List Logger → ℕ → M State Recording
  record_edges fuel engines ms = do
    load_loggers fuel (sorted engines)
    start_loggers (sorted engines)
    (us, from) ← us_and_ms
    (lines, late) ← rounds fuel from ms (map (new_line us) engines) 0
    faults ← faults_of engines
    pure (record { lines = lines; late = late; faults = faults })
