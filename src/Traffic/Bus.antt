-- ===== src/Traffic/Bus.antt =====
-- `can_bus` of demo/traffic.py finds nothing wrong exactly with the frames on a bus that idles.
use protocol_emulator.Base.{
  ℕ, ◌≡◌, ◌≢◌, refl, sym, ap, ◌∙◌, List, [], ◌++◌, ◌↔◌, ok, arith, Option, none, some, map,
}
use protocol_emulator.Base.Equality.{Eq}
use protocol_emulator.Traffic.{Problem, exactly}
use protocol_emulator.Traffic.Can.{CanLine, can_bus, all_lines, idle_problems}
use protocol_emulator.Traffic.Judges.{exactly_lem}
use protocol_emulator.Traffic.Levels.{line, channel_level, ends}

abbrev pub Idles : Option (ℕ × ℕ) → Type 0
Idles none = ⊥
Idles (some (first, last)) = (first ≢ 0) × (last ≢ 0)

-- The bus idles recessive at both ends of the capture.
abbrev pub IsIdle : List ℕ → Type 0
IsIdle samples = Idles (ends (map (channel_level 5) samples))

nothing :
    (levels : Option (ℕ × ℕ)) (problems : List (Problem CanLine))
    → idle_problems levels ++ problems ≡ []
    → Idles levels × (problems ≡ [])
unfolding idle_problems
nothing none problems h = absurd (cc)
nothing (some (first, last)) problems h = ground arith

idle_lem : (levels : Option (ℕ × ℕ)) → Idles levels → idle_problems levels ≡ []
unfolding idle_problems
idle_lem none h = absurd h
idle_lem (some (first, last)) h = ground arith

module _ ⦃e : Eq CanLine⦄ (samples : List ℕ) (frames : List (ℕ × ℕ × ℕ × List ℕ))
    (expected : List CanLine) (lines : all_lines frames ≡ ok expected) where
  judged :
      (decoded : List CanLine)
      → can_bus (line samples 5) frames decoded
        ≡ ok (idle_problems (ends (map (channel_level 5) samples)) ++ exactly decoded expected)
  unfolding can_bus line
  judged decoded = rw (can_bus, lines) refl

  -- Where the frames have lines: `can_bus` finds nothing wrong exactly where channel 5 starts and
  -- ends recessive and the decode is those lines.
  pub can_bus_lem :
      (decoded : List CanLine)
      → (can_bus (line samples 5) frames decoded ≡ ok []) ↔ (IsIdle samples × (decoded ≡ expected))
  can_bus_lem decoded = (
    λ h.
        let n = nothing _ (exactly decoded expected) (inner (sym (judged decoded) ∙ h)) in
        (n.0, (exactly_lem decoded expected).0 n.1),
    λ h. judged decoded ∙ ap ok (rw (idle_lem _ h.0) ((exactly_lem decoded expected).1 h.1)),
  )
    where
      inner : {ps : List (Problem CanLine)} → ok ps ≡ ok [] → ps ≡ []
      inner e' = cc
