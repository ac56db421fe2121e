-- ===== src/I2cTiming/Judge.antt =====
-- A verdict is right whatever happened within a sample.
use protocol_emulator.Base.{
  ltb→lt, sym, ap, ◌∙◌, ℕ, ◌+◌, ◌-◌, ◌*◌, ◌≤◌, ◌<◌, ◌≡◌, ltb, leb, arith, Bool-cases, inl, inr,
}
use native.Mathlib.Nat.{mul-le-mul_right, mul-lt-mul_of_pos_right}
use protocol_emulator.I2cTiming.{Verdict, pass, fail, unsure, verdict_on, giga}

-- An edge at time t is seen in the first sample that is not before it; a sample takes k units of time.
abbrev SeenAt : ℕ → ℕ → ℕ → Type 0
SeenAt k t sample = (t ≤ sample * k) × (sample * k < t + k)

swap : (a b c : ℕ) → a * b * c ≡ a * c * b
swap a b c = grind arith

spread : (a b c : ℕ) → (a + b) * c ≡ a * c + b * c
spread a b c = grind arith

turned : (a b : ℕ) → a * b ≡ b * a
turned a b = grind arith

fail_lem : (g l k d x : ℕ) → 0 < k → x < (d + 1) * k → (d + 1) * g < l → x * g < l * k
fail_lem g l k d x p h f = omega (
  arith,
  mul-le-mul_right g (let le : x ≤ (d + 1) * k = omega arith in le),
  swap (d + 1) k g,
  mul-lt-mul_of_pos_right f p,
)

pass_lem : (g l k d x : ℕ) → d * k ≤ x + k → l + g ≤ d * g → l * k ≤ x * g
pass_lem g l k d x h f = omega (
  arith,
  mul-le-mul_right g h,
  mul-le-mul_right k f,
  swap d k g,
  spread x k g,
  spread l g k,
  turned k g,
)

module _ (rate least k a b : ℕ) where
  -- What a verdict says of the time from a to b, in units of which a second has rate * k: it is shorter
  -- than the minimum, or not.
  abbrev pub Holds : Verdict → Type 0
  Holds fail = (b - a) * giga < least * rate * k
  Holds pass = least * rate * k ≤ (b - a) * giga
  Holds unsure = Unit {0}

  -- Of two edges, each seen in the first sample that is not before it: where the verdict is a
  -- failure, the time between them is shorter than the minimum, and where it is a pass, it is not.
  pub verdict_on-Holds :
      (ss es : ℕ)
      → 0 < k
      → a ≤ b
      → ss ≤ es
      → SeenAt k a ss
      → SeenAt k b es
      → Holds (verdict_on rate least (es - ss))
  unfolding verdict_on
  verdict_on-Holds ss es p h o sa sb =
      elim (Bool-cases (ltb ((es - ss + 1) * giga) (least * rate))) [
        | inl e ↦
            rw (verdict_on, e)
              (fail_lem giga (least * rate) k (es - ss) (b - a) p
                (omega (arith, sa.0, sa.1, sb.0, sb.1, spread_difference, spread (es - ss) 1 k))
                (ltb→lt _ _ e))
        | inr e ↦ elim (Bool-cases (leb (least * rate + giga) ((es - ss) * giga))) [
          | inl f ↦
              rw (verdict_on, e, f)
                (pass_lem giga (least * rate) k (es - ss) (b - a)
                  (omega (arith, sa.0, sa.1, sb.0, sb.1, spread_difference)) (ground (arith, f)))
          | inr f ↦ rw (verdict_on, e, f) tt
        ]
      ]
    where
      spread_difference : (es - ss) * k + ss * k ≡ es * k
      spread_difference = sym (spread (es - ss) ss k) ∙ ap (λ t. t * k) (omega arith)
