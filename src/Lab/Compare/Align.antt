-- ===== src/Lab/Compare/Align.antt =====
-- `compare` of demo/lab.py tries the starts, and keeps the best of them.
use protocol_emulator.Base.{ℕ, zero, ◌≤◌, ◌<◌, ◌≡◌, List, none, some, drop}
use protocol_emulator.Lab.Compare.{Change, Best, line_up}
use protocol_emulator.Lab.Compare.LinesUp.{LinesUp}

module _ (rate : ℕ) where
  abbrev Full : ℕ → Best → Type 0
  Full most none = ⊥
  Full most (some (lined, start, worst)) = lined ≡ most

  abbrev AtMost : ℕ → Best → Type 0
  AtMost most none = zero ≡ zero
  AtMost most (some (lined, start, worst)) = lined ≤ most

  module _ (m : Change) (ms : List Change) where
    -- The model's changes stand at one of the first n changes of the capture.
    abbrev pub StandsIn : ℕ → List Change → Type 0
    StandsIn n capture = (start : ℕ) × (start < n) × LinesUp rate m ms (drop start capture)

    -- The changes that line up from the first of them on.
    abbrev first_lined : Change → List Change → ℕ × ℕ
    first_lined c cs = line_up rate m c ms cs 1 0
