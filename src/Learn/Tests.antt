-- ===== src/Learn/Tests.antt =====
-- The recorder's theorems at concrete inputs.
use protocol_emulator.Base.{
  ℕ, ap, ◌∙◌, ◌*◌, ◌-◌, All, get_or, bit_or, ◌+◌, ◌%◌, ◌/◌, ◌≤◌, ◌≡◌, refl, List, [], ◌∷◌, arith,
  ok, err, memory_error, Result, int, ◌>>=◌, pure, if◌then◌else◌, ◌==◌,
}
use protocol_emulator.Base.Int.{pos, negsuc}
use protocol_emulator.Learn.{Pico, Line, poll, is_late, ticks_diff, wraps, take_drain, all_small}
use protocol_emulator.Learn.Clock.{IsTimed, Drain, take_drains, take_drains_lem}
use protocol_emulator.Learn.Poll.{update, Chip, at_chip, poll_lem}
use protocol_emulator.Learn.Record.{round, rounds}
use protocol_emulator.Learn.Ends.{rounds_total}
use protocol_emulator.Learn.Turns.{IsRunning, IsKept}
use protocol_emulator.Base.Bits.{bit_or-shl}
use protocol_emulator.Host.Registers.{now_lo}

abbrev fresh : Line
fresh = record { engine = 0; words = []; times = []; last = 0; clock = 0; then_us = 1073741000 }

-- The second drain is more than a turn of the clock after the first, and the microseconds wrap.
abbrev drains : List Drain
drains =
    record { cycle = 50000; us = 218; edges = 40000 ∷ 49000 ∷ [] }
    ∷ record { cycle = 250100; us = 4387; edges = 190000 ∷ 250000 ∷ [] }
    ∷ []

take_drains_lem_example :
    (after : Line) × (take_drains drains fresh ≡ ok after)
    × (after.times ≡ pos 40000 ∷ pos 49000 ∷ pos 190000 ∷ pos 250000 ∷ [])
take_drains_lem_example =
    take_drains_lem 0 1073741000 drains fresh
      (record { clock_right = refl; last_right = refl; us_right = refl; us_wraps = omega arith })
      ((1042, timed), omega arith, ((4169, timed'), omega arith, tt)) (omega arith)
  where
    timed :
        IsTimed 0 1073741000 (record { cycle = 50000; us = 218; edges = 40000 ∷ 49000 ∷ [] }) 1042
    timed = record {
      ordered = omega arith;
      short = omega arith;
      small = omega arith;
      counted = refl;
      not_behind = omega arith;
      not_ahead = omega arith;
    }

    timed' :
        IsTimed 50000 218 (record { cycle = 250100; us = 4387; edges = 190000 ∷ 250000 ∷ [] }) 4169
    timed' = record {
      ordered = omega arith;
      short = omega arith;
      small = omega arith;
      counted = refl;
      not_behind = omega arith;
      not_ahead = omega arith;
    }

-- A clock that went back by a little adds no turn.
wraps_test : wraps (negsuc 9) 65000 ≡ negsuc 0
unfolding wraps
wraps_test = refl

ticks_diff_test : ticks_diff 5 7 ≡ negsuc 1
unfolding ticks_diff
ticks_diff_test = refl

abbrev two_waiting : Chip
two_waiting = record {
  selected = 0;
  waiting = λ e. if e == 1 then 500 ∷ 66 ∷ [] else 7 ∷ [];
  cycle = 70000;
}

abbrev still : Chip → ℕ × Chip
still c = (0, c)

poll_lem_example : poll (at_chip still still) 1 two_waiting ≡ (
  (500 ∷ 66 ∷ [], 4464),
  record two_waiting { selected = 1; waiting = update two_waiting.waiting 1 [] },
)
poll_lem_example = poll_lem still still two_waiting 1 (omega arith) (omega arith)

-- A Pico whose clock moves by a microsecond at each look, and a chip whose clock, 48 cycles to each, is all
-- that it says.
abbrev ticking : Pico
ticking = record {
  State = ℕ;
  transfer = λ frame s.
      (0 ∷ (if get_or frame 0 0 == now_lo then 48 * s % 65536 / 256 else 0) ∷ 48 * s % 256 ∷ [], s);
  ticks_ms = λ s. ((7 + s / 1000) % 1073741824, s + 1);
  ticks_us = λ s. ((0 + s) % 1073741824, s);
}

poll-ticking : (engine s : ℕ) → poll ticking engine s ≡ (([], 48 * s % 65536), s)
unfolding poll
poll-ticking engine s = λ i. (([], clock i), s)
  where
    clock : bit_or (48 * s % 65536 / 256 * 256) (48 * s % 256) ≡ 48 * s % 65536
    clock = omega (arith, bit_or-shl 8 (48 * s % 65536 / 256) (48 * s % 256) (omega arith))

round_still : (ls : List Line) (late s : ℕ) → (round ticking ls late s).1 ≡ s
unfolding round
round_still [] late s = refl
round_still (l ∷ ls) late s =
    at (λ late' s'. round_still ls late' s') (poll ticking l.engine s) (take_drain _ _ _ l)
    ∙ ap (λ p. p.1) (poll-ticking l.engine s)
  where
    at :
        ((late' : ℕ) (s' : ℕ) → (round ticking ls late' s').1 ≡ s')
        → (p : (List ℕ × ℕ) × ℕ) (x : Result Line)
        → (elim x as (λ _. Result (List Line × ℕ) × ℕ) [
          | ok l' ↦
              (round ticking ls (late + int (is_late p.0.0 ((0 + p.1) % 1073741824) l)) >>= λ r.
              pure (l' ∷ r.0, r.1))
                p.1
          | err e ↦ (err e, p.1)
        ]).1
          ≡ p.1
    at h p (ok l') = ground (arith, h (late + int (is_late p.0.0 ((0 + p.1) % 1073741824) l)) p.1)
    at h p (err e) = refl

ticking-IsRunning : IsRunning ticking 7 0 (λ s. s) (λ e s. 48 * s)
ticking-IsRunning = record {
  shown = λ s. refl;
  shown_us = λ s. refl;
  polled = λ e s. rw (poll-ticking e s) refl;
  rate = λ e s t h k. (omega arith, omega arith, omega arith);
  on_poll = λ e s. rw (poll-ticking e s) (omega arith);
  on_us = λ s. omega arith;
  on_ms = λ s. omega arith;
  moves = λ ls late s. omega (arith, round_still ls late (s + 1));
}

abbrev started : Line
started = record fresh { then_us = 0 }

rounds_total_example :
    (ls' : List Line) × (late' : ℕ) × (t : ℕ) × (rounds ticking 2001 7 2 (started ∷ []) 0 0
      ≡ (ok (ls', late'), t + 1))
    × (2 * 1000 ≤ t)
    × All (IsKept ticking 0 (λ s. s) (λ e s. 48 * s) (t - 1000000) t) ls'
rounds_total_example =
    rounds_total ticking 7 0 2 (λ s. s) (λ e s. 48 * s) ticking-IsRunning (omega arith)
      (omega arith) (λ e s h. omega arith) 2001 (started ∷ []) 0 0 (omega arith) (omega arith)
      (omega arith)
      (
        (
          0,
          omega arith,
          omega arith,
          record { clock_right = refl; last_right = refl; us_right = refl; us_wraps = omega arith },
        ),
        tt,
      )

-- At 24 seconds the clock is no small int any more, which the locked heap has no room for.
full_test :
    take_drain [] 0 1000 (record fresh { clock = 1073741800; then_us = 0 }) ≡ err memory_error
unfolding take_drain all_small ticks_diff
full_test = refl
