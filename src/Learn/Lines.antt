-- ===== src/Learn/Lines.antt =====
-- python/learn_record.py: what `run` makes of a recording, with both lines on one clock.
use protocol_emulator.Base.{
  ℕ, ◌+◌, ◌-◌, ◌≡◌, refl, Bool, true, false, ◌&&◌, not, List, [], ◌∷◌, map, Option, none, some,
  length, get_elem?, drop, int, ltb, ◌==◌, if◌then◌else◌, Result, ok, err, index_error, arith,
}
use protocol_emulator.Base.Int.{ℤ, pos, negsuc, ◌+ℤ◌, max_ℤ}
use protocol_emulator.Learn.{Logger, Line, sync_cycles}
use protocol_emulator.Learn.Record.{Recording}

-- A line of record.edges: the level that it starts at and its edges.
pub record Pin : Type 0 where
  pub level : ℕ
  pub edges : List ℤ

pub record Report : Type 0 where
  pub length_cycles : ℤ
  pub pins : List Pin
  pub passed : Bool

abbrev skip : Logger → ℕ
skip e = 1 + int e.sync

unfoldable pub offset_of : ℤ → List (Logger × Line) → Result ℤ
offset_of offset [] = ok offset
offset_of offset ((e, l) ∷ rest) =
    if e.sync
    then elim l.times [ [] ↦ err index_error | t ∷ _ ↦ offset_of (t +ℤ negsuc 1) rest ]
    else offset_of offset rest

-- `level or 0`, where the line has words enough.
abbrev or_zero : Option ℕ → ℕ
or_zero none = 0
or_zero (some level) = level

unfoldable pub pin_of : ℤ → Logger × Line → Pin
pin_of offset (e, l) = record {
  level = or_zero (get_elem? l.words (skip e - 1));
  edges = map (λ t. t +ℤ (if e.sync then pos 0 else offset)) (drop (skip e) l.times);
}

abbrev last_or : ℤ → List ℤ → ℤ
last_or d [] = d
last_or d (t ∷ ts) = last_or t ts

unfoldable pub length_of : ℤ → List Pin → ℤ
length_of n [] = n
length_of n (p ∷ ps) =
    length_of (elim p.edges [ [] ↦ n | t ∷ ts ↦ max_ℤ n (last_or t ts +ℤ pos 1) ]) ps

unfoldable pub all_edged : List Pin → Bool
all_edged [] = true
all_edged (p ∷ ps) = ltb 0 (length p.edges) && all_edged ps

unfoldable pub any_fault : List ℕ → Bool
any_fault [] = false
any_fault (f ∷ fs) = if f == 0 then any_fault fs else true

-- `zip(lines, faults)` goes by the order of the engines, and so do the lines.
unfoldable pub lines_of : List Logger → List Line → List (Logger × Line)
lines_of (e ∷ es) (l ∷ ls) = (e, l) ∷ lines_of es ls
lines_of _ _ = []

unfoldable pub report_of : ℤ → List (Logger × Line) → Recording → Report
unfolding pin_of length_of all_edged any_fault
report_of offset lines r =
    let pins = map (pin_of offset) lines in
    record {
      length_cycles = length_of (pos 0) pins;
      pins = pins;
      passed = (r.late == 0) && (not (any_fault r.faults) && all_edged pins);
    }

unfoldable pub report : List Logger → Recording → Result Report
unfolding offset_of lines_of report_of
report engines r =
    let lines = lines_of engines r.lines in
    elim (offset_of (pos 0) lines) [ err e ↦ err e | ok offset ↦ ok (report_of offset lines r) ]

map_unshifted : (ts : List ℤ) → map (λ t. t +ℤ pos 0) ts ≡ ts
unfolding ◌+ℤ◌
map_unshifted [] = refl
map_unshifted (t ∷ ts) = ground (arith, map_unshifted ts)

map_shifted : (z : ℕ) (ts : List ℕ) → map (λ t. t +ℤ pos z) (map pos ts) ≡ map (λ t. pos (t + z)) ts
unfolding ◌+ℤ◌
map_shifted z [] = refl
map_shifted z (t ∷ ts) = ground (arith, map_shifted z ts)

module _ (e0 e1 : Logger) (z first0 first1 : ℕ) (a b : List ℕ) (l0 l1 : Line) (late : ℕ)
    (faults : List ℕ) where
  abbrev both : List (Logger × Line)
  both = (e0, l0) ∷ (e1, l1) ∷ []

  abbrev pub recorded : Recording
  recorded = record { lines = l0 ∷ l1 ∷ []; late = late; faults = faults }

  offset_lem :
      e0.sync ≡ false
      → e1.sync ≡ true
      → l1.times ≡ map pos ((z + sync_cycles) ∷ first1 ∷ b)
      → offset_of (pos 0) both ≡ ok (pos z)
  unfolding offset_of ◌+ℤ◌
  offset_lem s0 s1 h1 = rw (s0, s1, h1) (ground arith)

  -- Where engine 0 started at cycle z of engine 1, and engine 1's first stamp is two cycles later:
  -- the report has the edges of engine 0 z cycles later than by its own clock, and those of engine
  -- 1 as they are.
  one_clock :
      e0.sync ≡ false
      → e1.sync ≡ true
      → l0.times ≡ map pos (first0 ∷ a)
      → l1.times ≡ map pos ((z + sync_cycles) ∷ first1 ∷ b)
      → (p0 p1 : Pin) × (m : ℤ) × (passed : Bool) × (report (e0 ∷ e1 ∷ []) recorded
          ≡ ok (record { length_cycles = m; pins = p0 ∷ p1 ∷ []; passed = passed }))
        × (p0.edges ≡ map (λ t. pos (t + z)) a)
        × (p1.edges ≡ map pos b)
  unfolding report
  one_clock s0 s1 h0 h1 = (
    pin_of (pos z) (e0, l0),
    pin_of (pos z) (e1, l1),
    (report_of (pos z) both recorded).length_cycles,
    (report_of (pos z) both recorded).passed,
    ground (arith, offset_lem s0 s1 h1),
    rw (pin_of, s0, h0) (map_shifted z a),
    rw (pin_of, s1, h1) (map_unshifted (map pos b)),
  )
