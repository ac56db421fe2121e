-- ===== src/Lab/Compare/LinesUp.antt =====
-- `compare` of demo/lab.py finds the model's changes where they stand in the capture.
use protocol_emulator.Base.{
  ℕ, zero, suc, ◌+◌, ◌-◌, ◌*◌, ◌≤◌, ◌≡◌, refl, ◌∙◌, true, false, List, [], ◌∷◌, ◌==◌, max, length,
  inl, inr, arith, Bool-cases,
}
use protocol_emulator.Lab.Compare.{Change, giga, is_off, off_by, line_up}

module _ (rate : ℕ) where
  -- Of an interval of the capture and one of the model: two samples and 200 ppm apart at most.
  abbrev pub Within : ℕ → ℕ → Type 0
  Within got want =
      (5000 * (got * giga) ≤ 5000 * (want * rate) + (5000 * (2 * giga) + want * rate))
      × (5000 * (want * rate) ≤ 5000 * (got * giga) + (5000 * (2 * giga) + want * rate))

  -- The changes behind m are those behind c.
  abbrev Follow : Change → Change → List Change → List Change → Type 0
  Follow m c [] cs = zero ≡ zero
  Follow m c (m' ∷ ms) [] = ⊥
  Follow m c (m' ∷ ms) (c' ∷ cs) =
      (c'.level ≡ m'.level) × Within (c'.at - c.at) (m'.at - m.at) × Follow m' c' ms cs

  abbrev pub LinesUp : Change → List Change → List Change → Type 0
  LinesUp m ms [] = ⊥
  LinesUp m ms (c ∷ cs) = (c.level ≡ m.level) × Follow m c ms cs

  pub line_up-le :
      (m c : Change) (ms cs : List Change) (lined worst : ℕ)
      → (line_up rate m c ms cs lined worst).0 ≤ lined + length ms
  unfolding line_up
  line_up-le m c [] cs lined worst = omega arith
  line_up-le m c (m' ∷ ms) [] lined worst = omega arith
  line_up-le m c (m' ∷ ms) (c' ∷ cs) lined worst = ground (
    arith,
    line_up-le m' c' ms cs (lined + 1) (max worst (off_by rate (c'.at - c.at) (m'.at - m.at))),
  )

  is_off-Within : (got want : ℕ) → is_off rate got want ≡ false → Within got want
  unfolding is_off off_by
  is_off-Within got want h = (ground arith, ground arith)

  Within-is_off : (got want : ℕ) → Within got want → is_off rate got want ≡ false
  unfolding is_off off_by
  Within-is_off got want (a, b) = ground arith

  lined_not : (lined : ℕ) (ms : List Change) → lined ≡ lined + suc (length ms) → ⊥
  lined_not lined ms h = omega arith

  pub line_up_sound :
      (m c : Change) (ms cs : List Change) (lined worst : ℕ)
      → (line_up rate m c ms cs lined worst).0 ≡ lined + length ms
      → Follow m c ms cs
  unfolding line_up
  line_up_sound m c [] cs lined worst h = refl
  line_up_sound m c (m' ∷ ms) [] lined worst h = omega arith
  line_up_sound m c (m' ∷ ms) (c' ∷ cs) lined worst h = elim (Bool-cases (c'.level == m'.level)) [
    | inr other ↦ elim (lined_not lined ms (rw other at h)) [ ]
    | inl same ↦ elim (Bool-cases (is_off rate (c'.at - c.at) (m'.at - m.at))) [
      | inl off ↦ elim (lined_not lined ms (rw (same, off) at h)) [ ]
      | inr near ↦ (
        ground (arith, same),
        is_off-Within (c'.at - c.at) (m'.at - m.at) near,
        line_up_sound m' c' ms cs (lined + 1)
            (max worst (off_by rate (c'.at - c.at) (m'.at - m.at)))
            (rw (same, near) at h ∙ omega arith),
      )
    ]
  ]

  pub line_up_complete :
      (m c : Change) (ms cs : List Change) (lined worst : ℕ)
      → Follow m c ms cs
      → (line_up rate m c ms cs lined worst).0 ≡ lined + length ms
  unfolding line_up
  line_up_complete m c [] cs lined worst h = omega arith
  line_up_complete m c (m' ∷ ms) [] lined worst h = elim h [ ]
  line_up_complete m c (m' ∷ ms) (c' ∷ cs) lined worst (same, near, rest) =
      let alike : (c'.level == m'.level) ≡ true = ground (arith, same) in
      let close = Within-is_off (c'.at - c.at) (m'.at - m.at) near in
      rw (alike, close)
        (line_up_complete m' c' ms cs (lined + 1)
            (max worst (off_by rate (c'.at - c.at) (m'.at - m.at))) rest
          ∙ omega arith)
