-- ===== src/Lab/Compare.antt =====
-- demo/lab.py: `compare`, which looks for the model's changes in the analyser's capture. Both
-- have their changes in the order of time. Of a change of the model the time is in ns, of one of the capture it is a sample; the rate is in Hz, and a length of time
-- that the code has in floating ns is one of ns * rate / 10 ** 9 here.
pub mod LinesUp
pub mod Align
use protocol_emulator.Base.{
  ℕ, zero, suc, ◌+◌, ◌-◌, ◌*◌, Bool, true, false, ◌&&◌, ◌||◌, not, List, [], ◌∷◌, Option, none,
  some, ltb, ◌==◌, max, length, if◌then◌else◌,
}

pub record Change : Type 0 where
  pub at : ℕ
  pub level : ℕ

abbrev pub giga : ℕ
giga = 1000000000

abbrev pub most_starts : ℕ
most_starts = 64

-- `best` of `compare`; none is its first value.
abbrev pub Best : Type 0
Best = Option (ℕ × ℕ × ℕ)

-- The result: the changes that line up and the worst difference, with the start, and what is left of the capture
-- or the change that is not found.
pub data Comparison : Type 0 where
  never_changes : Bool → Comparison
  matches : ℕ → ℕ → ℕ → Comparison
  differs : ℕ → ℕ → ℕ → Comparison
  no_first_level : Comparison

module _ (rate : ℕ) where
  -- The difference of an interval of the capture and one of the model.
  unfoldable pub off_by : ℕ → ℕ → ℕ
  off_by got want = (got * giga - want * rate) + (want * rate - got * giga)

  -- More than two samples and 200 ppm.
  unfoldable pub is_off : ℕ → ℕ → Bool
  unfolding off_by
  is_off got want = ltb (5000 * (2 * giga) + want * rate) (5000 * off_by got want)

  -- The inner loop of `compare`, behind the changes m and c: how many line up, and the worst difference.
  unfoldable pub line_up : Change → Change → List Change → List Change → ℕ → ℕ → ℕ × ℕ
  unfolding is_off
  line_up m c [] cs lined worst = (lined, worst)
  line_up m c (m' ∷ ms) [] lined worst = (lined, worst)
  line_up m c (m' ∷ ms) (c' ∷ cs) lined worst =
      let off = off_by (c'.at - c.at) (m'.at - m.at) in
      let rest = line_up m' c' ms cs (lined + 1) (max worst off) in
      if not (c'.level == m'.level)
      then (lined, worst)
      else if is_off (c'.at - c.at) (m'.at - m.at)
      then (lined, worst)
      else rest

  unfoldable pub better : Best → ℕ → ℕ × ℕ → Best
  better none start (lined, worst) = some (lined, start, worst)
  better (some (most, from, worst_before)) start (lined, worst) =
      if ltb most lined then some (lined, start, worst) else some (most, from, worst_before)

  -- The outer loop, with so many starts to try.
  unfoldable pub align : ℕ → Change → List Change → ℕ → List Change → Best → Best
  unfolding line_up better
  align zero m ms start capture best = best
  align (suc n) m ms start [] best = best
  align (suc n) m ms start (c ∷ cs) best =
      let here = line_up m c ms cs 1 0 in
      let skipped = align n m ms (start + 1) cs best in
      let tried = align n m ms (start + 1) cs (better best start here) in
      if not (c.level == m.level)
      then skipped
      else if here.0 == length ms + 1
      then better best start here
      else tried

  unfoldable pub comparison_of : List Change → List Change → Best → Comparison
  comparison_of model capture none = no_first_level
  comparison_of model capture (some (lined, start, worst)) =
      if lined == length model
      then matches start worst (length capture - start - length model)
      else differs start worst lined

  unfoldable pub compare : List Change → List Change → Comparison
  unfolding align comparison_of
  compare [] [] = never_changes true
  compare [] (c ∷ cs) = never_changes false
  compare (m ∷ ms) capture = comparison_of (m ∷ ms) capture (align most_starts m ms 0 capture none)
