-- ===== src/I2cTiming/Kept.antt =====
-- What every edge keeps in order, for the checker of demo/decoders/i2c_timing/timing.py.
use protocol_emulator.Base.{
  ℕ, ◌+◌, ◌≤◌, Bool, true, ◌&&◌, not, List, [], ◌∷◌, ◌++◌, Option, none, some, inr, All, All-append,
  if◌then◌else◌, arith, ltb, ◌==◌, int,
}
use protocol_emulator.I2cTiming.{
  Checker, TimingResult, Parameter, t_su_sta, t_buf, t_su_sto, t_hd_sta, t_high, t_low, judge,
}
use protocol_emulator.I2cTiming.Edges.{
  judge_if, is_given, take_change, take_start, take_stop, on_sda, take_fall, take_rise,
  data_results, last_or, on_scl, fall_first, then_data, rise_last, edge,
}
use protocol_emulator.I2cTiming.Order.{
  UpTo, AllAfter, IsOrdered, AllInOrder, no_more, append-AllInOrder, if-AllInOrder, if-IsOrdered,
  Good, if-Good, clock-AllInOrder, also,
}

module _ (at : ℕ) (c : Checker) (o : IsOrdered at c) where
  judged : (p : Parameter) (from : Option ℕ) → UpTo at from → AllInOrder at (judge_if c p from at)
  unfolding judge_if judge
  judged p none h = no_more
  judged p (some x) h = also (inr (h, omega arith)) no_more

  after_append :
      (f : Option ℕ) → UpTo at f → AllAfter f c.changes → AllAfter f (c.changes ++ at ∷ [])
  after_append none h k = tt
  after_append (some f) h k = All-append (λ y. f ≤ y) c.changes (at ∷ []) k (h, tt)

  take_change-Good : Good at (take_change at c)
  unfolding take_change
  take_change-Good = (
    if-IsOrdered at c.busy _ c
        (record {
          start_past = o.start_past;
          stop_past = o.stop_past;
          rise_past = o.rise_past;
          fall_past = o.fall_past;
          changes_past =
              All-append (λ x. x ≤ at) c.changes (at ∷ []) o.changes_past (omega arith, tt);
          changes_after = after_append c.fall o.fall_past o.changes_after;
        })
        o,
    no_more,
  )

  take_start-Good : Good at (take_start at c)
  unfolding take_start
  take_start-Good = (
    record {
      start_past = omega arith;
      stop_past = o.stop_past;
      rise_past = o.rise_past;
      fall_past = o.fall_past;
      changes_past = o.changes_past;
      changes_after = o.changes_after;
    },
    if-AllInOrder (c.busy && is_given c.rise) (judged t_su_sta c.rise o.rise_past)
        (if-AllInOrder (not c.busy && is_given c.stop) (judged t_buf c.stop o.stop_past) no_more),
  )

  take_stop-Good : Good at (take_stop at c)
  unfolding take_stop
  take_stop-Good = (
    record {
      start_past = tt;
      stop_past = omega arith;
      rise_past = o.rise_past;
      fall_past = o.fall_past;
      changes_past = o.changes_past;
      changes_after = o.changes_after;
    },
    if-AllInOrder c.busy
        (append-AllInOrder (judged t_su_sto c.rise o.rise_past) (clock-AllInOrder at c)) no_more,
  )

  take_fall-Good : Good at (take_fall at c)
  unfolding take_fall
  take_fall-Good = (
    record {
      start_past = tt;
      stop_past = o.stop_past;
      rise_past = o.rise_past;
      fall_past = omega arith;
      changes_past = tt;
      changes_after = tt;
    },
    if-AllInOrder c.busy
        (if-AllInOrder (is_given c.start) (judged t_hd_sta c.start o.start_past)
          (if-AllInOrder (c.clean && is_given c.rise) (judged t_high c.rise o.rise_past) no_more))
        no_more,
  )

  last-past : (x : ℕ) (xs : List ℕ) → x ≤ at → All (λ y. y ≤ at) xs → last_or x xs ≤ at
  last-past x [] h k = h
  last-past x (y ∷ ys) h k = last-past y ys k.0 k.1

  data-AllInOrder :
      (fall : Option ℕ) (changes : List ℕ)
      → AllAfter fall changes
      → All (λ y. y ≤ at) changes
      → AllInOrder at (data_results c fall changes at)
  unfolding data_results judge
  data-AllInOrder none [] h k = no_more
  data-AllInOrder none (x ∷ xs) h k = no_more
  data-AllInOrder (some f) [] h k = no_more
  data-AllInOrder (some f) (x ∷ xs) h k =
      also (inr (h.0, k.0)) (also (inr (last-past x xs k.0 k.1, omega arith)) no_more)

  take_rise-Good : Good at (take_rise at c)
  unfolding take_rise
  take_rise-Good = (
    record {
      start_past = o.start_past;
      stop_past = o.stop_past;
      rise_past = omega arith;
      fall_past = o.fall_past;
      changes_past = o.changes_past;
      changes_after = o.changes_after;
    },
    if-AllInOrder c.busy
        (append-AllInOrder (judged t_low c.fall o.fall_past)
          (data-AllInOrder c.fall c.changes o.changes_after o.changes_past))
        no_more,
  )

-- The same of the levels that are kept beside.
levels-IsOrdered :
    (now : ℕ) (c : Checker) (seen : Bool) (scl sda stray : ℕ)
    → IsOrdered now c
    → IsOrdered now (record c { seen = seen; scl = scl; sda = sda; stray = stray })
levels-IsOrdered now c seen scl sda stray o = record {
  start_past = o.start_past;
  stop_past = o.stop_past;
  rise_past = o.rise_past;
  fall_past = o.fall_past;
  changes_past = o.changes_past;
  changes_after = o.changes_after;
}

module _ (at : ℕ) where
  on_sda-Good : (sda : ℕ) (c : Checker) → IsOrdered at c → Good at (on_sda at sda c)
  unfolding on_sda
  on_sda-Good sda c o =
      let c' = record c { sda = sda } in
      let o' = levels-IsOrdered at c c.seen c.scl sda c.stray o in
      if-Good at (c.scl == 0) (take_change at c')
        (if sda == 0 then take_start at c' else take_stop at c') (take_change-Good at c' o')
        (if-Good at (sda == 0) (take_start at c') (take_stop at c') (take_start-Good at c' o')
          (take_stop-Good at c' o'))

  on_scl-Good : (scl : ℕ) (c : Checker) → IsOrdered at c → Good at (on_scl at scl c)
  unfolding on_scl
  on_scl-Good scl c o =
      let c' = record c { scl = scl; stray = c.stray + int (not c.busy) } in
      let o' = levels-IsOrdered at c c.seen scl c.sda (c.stray + int (not c.busy)) o in
      if-Good at (scl == 0) (take_fall at c') (take_rise at c') (take_fall-Good at c' o')
        (take_rise-Good at c' o')

  with_more :
      (c : Checker) (out : List TimingResult) (x : Checker × List TimingResult)
      → AllInOrder at out
      → Good at x
      → Good at (x.0, out ++ x.1)
  with_more c out x h g = (g.0, append-AllInOrder h g.1)

  fall_first-Good : (scl : ℕ) (c : Checker) → IsOrdered at c → Good at (fall_first at scl c)
  unfolding fall_first
  fall_first-Good scl c o =
      if-Good at (ltb scl c.scl) (on_scl at scl c) (c, []) (on_scl-Good scl c o) (o, no_more)

  then_data-Good :
      (sda : ℕ) (x : Checker × List TimingResult) → Good at x → Good at (then_data at sda x)
  unfolding then_data
  then_data-Good sda (c, out) g =
      let y = on_sda at sda c in
      if-Good at (sda == c.sda) (c, out) (y.0, out ++ y.1) g
        (with_more c out y g.1 (on_sda-Good sda c g.0))

  rise_last-Good :
      (scl : ℕ) (x : Checker × List TimingResult) → Good at x → Good at (rise_last at scl x)
  unfolding rise_last
  rise_last-Good scl (c, out) g =
      let y = on_scl at scl c in
      if-Good at (ltb c.scl scl) (y.0, out ++ y.1) (c, out)
        (with_more c out y g.1 (on_scl-Good scl c g.0)) g

  pub edge-Good : (scl sda : ℕ) (c : Checker) → IsOrdered at c → Good at (edge at scl sda c)
  unfolding edge
  edge-Good scl sda c o =
      if-Good at c.seen (rise_last at scl (then_data at sda (fall_first at scl c)))
        (record c { seen = true; scl = scl; sda = sda }, [])
        (rise_last-Good scl (then_data at sda (fall_first at scl c))
          (then_data-Good sda (fall_first at scl c) (fall_first-Good scl c o)))
        (levels-IsOrdered at c true scl sda c.stray o, no_more)
