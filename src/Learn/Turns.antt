-- ===== src/Learn/Turns.antt =====
-- A turn of the loop of `record`, by the Pico's clocks and those of the engines.
use protocol_emulator.Base.{
  ℕ, ◌+◌, ◌-◌, ◌*◌, ◌%◌, ◌/◌, ◌≤◌, ◌<◌, ◌≡◌, refl, sym, subst, ◌∙◌, List, ◌∷◌, [], int, All, arith,
  ok, err, Result,
}
use protocol_emulator.Learn.{Pico, Line, small_ints, take_drain, poll, is_late}
use protocol_emulator.Learn.Clock.{Drain, IsTimed, IsAt, take_drain-IsAt}
use protocol_emulator.Learn.Record.{round}

-- How time goes: `micros` are the true microseconds since the loop began, and `cycles` those of an engine's
-- clock. The Pico's clocks show the first, and a poll's last read the second; over two seconds the two
-- stay within half a turn of each other, and a turn of the loop takes a microsecond at least and a
-- second at most.
pub record IsRunning (P : Pico) (from base : ℕ) (micros : P.State → ℕ) (cycles : ℕ → P.State → ℕ)
    : Type 0 where
  pub shown : (s : P.State) → (P.ticks_ms s).0 ≡ (from + micros s / 1000) % 1073741824
  pub shown_us : (s : P.State) → (P.ticks_us s).0 ≡ (base + micros s) % 1073741824
  pub polled : (e : ℕ) (s : P.State) → (poll P e s).0.1 ≡ cycles e (poll P e s).1 % 65536
  pub rate :
      (e : ℕ) (s t : P.State)
      → micros s ≤ micros t
      → micros t ≤ micros s + 2000000
      → (cycles e s ≤ cycles e t)
        × (cycles e t ≤ cycles e s + 48 * (micros t - micros s) + 32768)
        × (48 * (micros t - micros s) + cycles e s < cycles e t + 32768)
  pub on_poll : (e : ℕ) (s : P.State) → micros s ≤ micros (poll P e s).1
  pub on_us : (s : P.State) → micros s ≤ micros (P.ticks_us s).1
  pub on_ms : (s : P.State) → micros s ≤ micros (P.ticks_ms s).1
  pub moves :
      (ls : List Line) (late : ℕ) (s : P.State)
      → (micros s < micros (round P ls late (P.ticks_ms s).1).1)
        × (micros (round P ls late (P.ticks_ms s).1).1 ≤ micros s + 1000000)

add : {S : Type 0} → Line → Result (List Line × ℕ) × S → Result (List Line × ℕ) × S
add l (ok (ls, late), s) = (ok (l ∷ ls, late), s)
add l (err e, s) = (err e, s)

add-state : {S : Type 0} (l : Line) (x : Result (List Line × ℕ) × S) → (add l x).1 ≡ x.1
unfolding add
add-state l (ok r, s) = refl
add-state l (err e, s) = refl

module _ (P : Pico) where
  -- A line's part of a turn behind its poll, and the lines behind it.
  turn :
      List Line → ℕ → List ℕ → ℕ → Line → P.State → Result Line → Result (List Line × ℕ) × P.State
  turn ls late words t l s (ok l') = add l' (round P ls (late + int (is_late words t l)) s)
  turn ls late words t l s (err e) = (err e, s)

  round-turn :
      (l : Line) (ls : List Line) (late : ℕ) (s : P.State)
      → round P (l ∷ ls) late s ≡ (
          let p = poll P l.engine s in
          let u = P.ticks_us p.1 in turn ls late p.0.0 u.0 l u.1 (take_drain p.0.0 p.0.1 u.0 l))
  unfolding round turn add
  round-turn l ls late s = ground arith

-- The line's clock was right at a poll from `low` to `high`.
abbrev pub IsKept : (P : Pico) → ℕ → (P.State → ℕ) → (ℕ → P.State → ℕ) → ℕ → ℕ → Line → Type 0
IsKept P base micros cycles low high l =
    (r : P.State) × (low ≤ micros r)
    × (micros r ≤ high)
    × IsAt (cycles l.engine r) ((base + micros r) % 1073741824) l

module _ (P : Pico) (from base : ℕ) (micros : P.State → ℕ) (cycles : ℕ → P.State → ℕ)
    (run : IsRunning P from base micros cycles) where
  turn_on :
      (ls : List Line) (late : ℕ) (words : List ℕ) (t : ℕ) (l : Line) (s : P.State)
      → ((late' : ℕ) → micros s ≤ micros (round P ls late' s).1)
      → (x : Result Line) → micros s ≤ micros (turn P ls late words t l s x).1
  unfolding turn
  turn_on ls late words t l s h (ok l') =
      let late' = late + int (is_late words t l) in
      subst (λ u. micros s ≤ micros u) (sym (add-state l' (round P ls late' s))) (h late')
  turn_on ls late words t l s h (err e) = omega arith

  round_on : (ls : List Line) (late : ℕ) (s : P.State) → micros s ≤ micros (round P ls late s).1
  round_on [] late s = unfold round in omega arith
  round_on (l ∷ ls) late s =
      let p = poll P l.engine s in
      let u = P.ticks_us p.1 in
      let behind =
        turn_on ls late p.0.0 u.0 l u.1 (λ late'. round_on ls late' u.1)
          (take_drain p.0.0 p.0.1 u.0 l) in
      subst (λ x. micros s ≤ micros x.1) (sym (round-turn P l ls late s))
        (omega (arith, run.on_poll l.engine s, run.on_us p.1, behind))

  us_gap :
      (r s : P.State)
      → micros r ≤ micros s
      → (base + micros s) % 1073741824
        ≡ ((base + micros r) % 1073741824 + (micros s - micros r)) % 1073741824
  us_gap r s h = omega arith

  timed_lem :
      (e : ℕ) (r s : P.State)
      → micros r ≤ micros s
      → micros s ≤ micros r + 2000000
      → cycles e s < small_ints
      → IsTimed
          (cycles e r)
          ((base + micros r) % 1073741824)
          (record { cycle = cycles e s; us = (base + micros s) % 1073741824; edges = [] })
          (micros s - micros r)
  timed_lem e r s after near small =
      let d = run.rate e r s after near in
      record {
        ordered = d.0;
        short = omega (arith, near);
        small = small;
        counted = us_gap r s after;
        not_behind = d.1;
        not_ahead = d.2;
      }

  -- A line's drain does not raise, and leaves its clock right.
  drain_lem :
      (low high : ℕ) (l : Line) (s : P.State)
      → IsKept P base micros cycles low high l
      → high ≤ micros s
      → let p = poll P l.engine s in
        micros p.1 ≤ low + 2000000
        → cycles l.engine p.1 < small_ints
        → (after : Line) × (take_drain p.0.0 p.0.1 (P.ticks_us p.1).0 l ≡ ok after)
          × IsKept P base micros cycles (micros s) (micros p.1) after
  drain_lem low high l s (r, above, below, at) behind near small =
      let p = poll P l.engine s in
      let d : Drain = record {
        cycle = cycles l.engine p.1;
        us = (base + micros p.1) % 1073741824;
        edges = [];
      } in
      let on = run.on_poll l.engine s in
      let (after, same, engine, right) =
        take_drain-IsAt (cycles l.engine r) ((base + micros r) % 1073741824) (micros p.1 - micros r)
          d p.0.0 l at (timed_lem l.engine r p.1 (omega (arith, on)) (omega (arith, near)) small) in
      (
        after,
        (λ i. take_drain p.0.0 (run.polled l.engine s i) (run.shown_us p.1 i) l) ∙ same,
        (p.1, on, omega arith, subst (λ e. IsAt (cycles e p.1) d.us after) (sym engine) right),
      )

  IsKept-wider :
      (low high low' high' : ℕ) (l : Line)
      → low' ≤ low
      → high ≤ high'
      → IsKept P base micros cycles low high l
      → IsKept P base micros cycles low' high' l
  IsKept-wider low high low' high' l p q (r, above, below, at) =
      (r, omega (arith, above), omega (arith, below), at)

  pub widened :
      (low high low' high' : ℕ) (ls : List Line)
      → low' ≤ low
      → high ≤ high'
      → All (IsKept P base micros cycles low high) ls
      → All (IsKept P base micros cycles low' high') ls
  widened low high low' high' [] p q a = tt
  widened low high low' high' (l ∷ ls) p q (k, a) =
      (IsKept-wider low high low' high' l p q k, widened low high low' high' ls p q a)

  -- What a turn of the loop comes to: the lines, with their clocks right.
  abbrev pub Turns : ℕ → Result (List Line × ℕ) × P.State → Type 0
  Turns low x =
      (ls : List Line) × (late : ℕ) × (x ≡ (ok (ls, late), x.1))
      × All (IsKept P base micros cycles low (micros x.1)) ls

  add-Turns :
      (low : ℕ) (l : Line) (x : Result (List Line × ℕ) × P.State)
      → IsKept P base micros cycles low (micros x.1) l
      → Turns low x
      → Turns low (add l x)
  unfolding add
  add-Turns low l x k (ls, late, e, a) =
      subst (λ y. Turns low (add l y)) (sym e) ((l ∷ ls), late, refl, (k, a))

  turn-Turns :
      (high : ℕ) (ls : List Line) (late : ℕ) (words : List ℕ) (t : ℕ) (l : Line) (s : P.State)
      (read : ℕ) (after : Line)
      → ((late' : ℕ)
          → micros (round P ls late' s).1 ≤ high + 1000000
          → Turns high (round P ls late' s))
      → high ≤ read
      → read ≤ micros s
      → micros (turn P ls late words t l s (ok after)).1 ≤ high + 1000000
      → IsKept P base micros cycles high read after
      → Turns high (turn P ls late words t l s (ok after))
  unfolding turn
  turn-Turns high ls late words t l s read after rest p q ends k =
      let late' = late + int (is_late words t l) in
      let y = round P ls late' s in
      let on = round_on ls late' s in
      add-Turns high after y
        (IsKept-wider high read high (micros y.1) after (omega arith) (omega arith) k)
        (rest late' (subst (λ z. micros z ≤ high + 1000000) (add-state after y) ends))

  pub round_lem :
      (high : ℕ) (ls : List Line) (late : ℕ) (s : P.State)
      → high ≤ micros s
      → micros (round P ls late s).1 ≤ high + 1000000
      → ((e : ℕ) (t : P.State) → micros t ≤ high + 1000000 → cycles e t < small_ints)
      → All (IsKept P base micros cycles (high - 1000000) high) ls
      → Turns high (round P ls late s)
  round_lem high [] late s from_high short small a = unfold round in ([], late, refl, tt)
  round_lem high (l ∷ ls) late s from_high short small (k, a) =
      let p = poll P l.engine s in
      let u = P.ticks_us p.1 in
      let x = take_drain p.0.0 p.0.1 u.0 l in
      let on = turn_on ls late p.0.0 u.0 l u.1 (λ late'. round_on ls late' u.1) x in
      let whole = round-turn P l ls late s in
      let ends : micros (turn P ls late p.0.0 u.0 l u.1 x).1 ≤ high + 1000000 =
        subst (λ y. micros y.1 ≤ high + 1000000) whole short in
      let polled = run.on_poll l.engine s in
      let ahead : micros p.1 ≤ micros u.1 = run.on_us p.1 in
      let (after, same, kept) =
        drain_lem (high - 1000000) high l s k from_high (omega arith)
          (small l.engine p.1 (omega arith)) in
      subst (Turns high) (sym whole) (
        subst (λ y. Turns high (turn P ls late p.0.0 u.0 l u.1 y)) (sym same)
          (turn-Turns high ls late p.0.0 u.0 l u.1 (micros p.1) after
            (λ late' h. round_lem high ls late' u.1 (omega arith) h small a) (omega arith) ahead
            (subst (λ y. micros (turn P ls late p.0.0 u.0 l u.1 y).1 ≤ high + 1000000) same ends)
            (IsKept-wider (micros s) (micros p.1) high (micros p.1) after from_high (omega arith)
              kept)))
