-- ===== src/Learn/Ends.antt =====
-- The loop of `record` returns, by the Pico's clocks and those of the engines.
use protocol_emulator.Base.{
  ℕ, true, zero, suc, ◌+◌, ◌-◌, ◌*◌, ◌/◌, ◌≤◌, ◌<◌, ◌≡◌, refl, ap, ◌∙◌, List, M, ◌>>=◌, All,
  Bool-cases, inl, inr, arith, ok, err, Result,
}
use protocol_emulator.Base.Int.{pos, ltb_ℤ}
use protocol_emulator.Learn.{Pico, Line, small_ints, ticks_diff}
use protocol_emulator.Learn.Record.{round, rounds}
use protocol_emulator.Learn.Turns.{IsRunning, IsKept, round_lem, widened}

bind-ok :
    {S A B : Type 0} (m : M S A) (f : A → M S B) (s t : S) (a : A)
    → m s ≡ (ok a, t)
    → (m >>= f) s ≡ f a t
bind-ok {S} {A} {B} m f s t a h =
    ap (λ x. elim x.0 as (λ _. Result B × S) [ ok b ↦ f b x.1 | err e ↦ (err e, x.1) ]) h

rounds-round :
    (P : Pico) (fuel from ms late late' : ℕ) (ls ls' : List Line) (s t : P.State)
    → ltb_ℤ (ticks_diff (P.ticks_ms s).0 from) (pos ms) ≡ true
    → round P ls late (P.ticks_ms s).1 ≡ (ok (ls', late'), t)
    → rounds P (suc fuel) from ms ls late s ≡ rounds P fuel from ms ls' late' t
unfolding rounds
rounds-round P fuel from ms late late' ls ls' s t e h =
    rw (rounds, e)
      (bind-ok (round P ls late) (λ r. rounds P fuel from ms r.0 r.1) (P.ticks_ms s).1 t
        (ls', late') h)

module _ (P : Pico) (from base ms : ℕ) (micros : P.State → ℕ) (cycles : ℕ → P.State → ℕ)
    (run : IsRunning P from base micros cycles) (small : from < 1073741824)
    (short : ms + 1001 < 536870912)
    (fits : (e : ℕ) (s : P.State) → micros s ≤ ms * 1000 + 1000000 → cycles e s < small_ints) where
  test_lem :
      (s : P.State)
      → micros s ≤ ms * 1000 + 1000000
      → ticks_diff (P.ticks_ms s).0 from ≡ pos (micros s / 1000)
  unfolding ticks_diff
  test_lem s h = ground (arith, run.shown s)

  -- Where the Pico's clocks show the microseconds since the loop began and a poll the engine's
  -- cycles, those two stay within half a turn of the engine's clock of each other over two
  -- seconds, a turn of the loop takes a microsecond at least and a second at most, the recording
  -- is shorter than 2 ** 29 ms by more than a second, and the cycles stay ints of 31 bits as long
  -- as it lasts and a second more: from lines whose clocks were right at a poll within the last
  -- second, at most a second behind the recording's end, with some fuel and more of it than
  -- microseconds are left, the loop of `record` returns, behind a look at the clock that finds the
  -- time over. Nothing raises `MemoryError` for the locked heap, and each line's clock is that of
  -- its engine at a poll within the last second.
  pub rounds_total :
      (fuel : ℕ) (ls : List Line) (late : ℕ) (s : P.State)
      → micros s ≤ ms * 1000 + 1000000
      → 0 < fuel
      → ms * 1000 < fuel + micros s
      → All (IsKept P base micros cycles (micros s - 1000000) (micros s)) ls
      → (ls' : List Line) × (late' : ℕ) × (t : P.State) × (rounds P fuel from ms ls late s
          ≡ (ok (ls', late'), (P.ticks_ms t).1))
        × (ms * 1000 ≤ micros t)
        × All (IsKept P base micros cycles (micros t - 1000000) (micros t)) ls'
  unfolding rounds
  rounds_total zero ls late s bounded some_fuel enough a = absurd (omega arith)
  rounds_total (suc fuel) ls late s bounded some_fuel enough a =
      elim (Bool-cases (ltb_ℤ (ticks_diff (P.ticks_ms s).0 from) (pos ms))) [
        | inl e ↦
            let left : micros s < ms * 1000 = ground (arith, test_lem s bounded, e) in
            let m = run.moves ls late s in
            let x = round P ls late (P.ticks_ms s).1 in
            let (ls', late', same, kept) =
              round_lem P from base micros cycles run (micros s) ls late (P.ticks_ms s).1
                (run.on_ms s) m.1 (λ e t h. fits e t (omega arith)) a in
            let (ls2, late2, t, end, over, kept2) =
              rounds_total fuel ls' late' x.1 (omega arith) (omega arith) (omega arith) (
                widened P from base micros cycles run (micros s) (micros x.1) (micros x.1 - 1000000)
                  (micros x.1) ls' (omega arith) (omega arith) kept) in
            (
              ls2,
              late2,
              t,
              rounds-round P fuel from ms late late' ls ls' s x.1 e same ∙ end,
              over,
              kept2,
            )
        | inr e ↦ (ls, late, s, rw (rounds, e) refl, ground (arith, test_lem s bounded, e), a)
      ]
