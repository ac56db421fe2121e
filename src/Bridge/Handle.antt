-- ===== src/Bridge/Handle.antt =====
-- What the bridge's loops come to.
use protocol_emulator.Base.{
  ℕ, zero, suc, ◌≡◌, refl, sym, ap, ◌∙◌, true, false, Option, ◌==◌, M, Result, ok, Bool-cases, inl,
  inr, subst, if◌then◌else◌, arith,
}
use protocol_emulator.Host.Port.{Port}
use protocol_emulator.Bench.{Firmware}
use protocol_emulator.Swd.{polls}
use protocol_emulator.Bridge.{wait_ack, try_once, try_from, transfer}

-- What n tries from s on can come to.
data Tries {S : Type 0} (once : M S (ℕ × Option ℕ))
    : ℕ → S → Result (ℕ × Option ℕ) × S → Type 0 where
  answered :
      {n : ℕ} {s t : S} {r : ℕ × Option ℕ}
      → once s ≡ (ok r, t)
      → (r.0 == wait_ack) ≡ false
      → Tries once (suc n) s (ok r, t)
  used_up : {s t : S} {r : ℕ × Option ℕ} → once s ≡ (ok r, t) → Tries once 1 s (ok r, t)
  waited :
      {n : ℕ} {s t : S} {r : ℕ × Option ℕ} {x : Result (ℕ × Option ℕ) × S}
      → once s ≡ (ok r, t)
      → (r.0 == wait_ack) ≡ true
      → Tries once n t x
      → Tries once (suc n) s x

module _ (P : Port) (fuel : ℕ) (swd : Firmware) where
  module _ (once : M P.State (ℕ × Option ℕ))
      (returns : (s : P.State) → (r : ℕ × Option ℕ) × (t : P.State) × (once s ≡ (ok r, t))) where
    try_from_step :
        (left : ℕ) (s t : P.State) (r : ℕ × Option ℕ)
        → once s ≡ (ok r, t)
        → try_from P fuel swd once (suc left) s
          ≡ (if r.0 == wait_ack then try_from P fuel swd once left t else (ok r, t))
    unfolding try_from
    try_from_step left s t r e = ground (arith, e)

    try_from-Tries :
        (left : ℕ) (s : P.State) → Tries once (suc left) s (try_from P fuel swd once left s)
    unfolding try_from
    try_from-Tries zero s =
        let (r, t, e) = returns s in subst (λ x. Tries once 1 s x) (sym e) (used_up e)
    try_from-Tries (suc left) s =
        let (r, t, e) = returns s in
        elim (Bool-cases (r.0 == wait_ack)) [
          | inl w ↦
              subst (λ x. Tries once (suc (suc left)) s x)
                (sym (try_from_step left s t r e ∙ rw w refl)) (waited e w (try_from-Tries left t))
          | inr a ↦
              subst (λ x. Tries once (suc (suc left)) s x)
                (sym (try_from_step left s t r e ∙ rw a refl)) (answered e a)
        ]

  -- Where no try raises: `transfer` ends with the first of its tries whose status is not WAIT,
  -- after tries whose status is, or with its twentieth.
  transfer-Tries :
      (ap address : ℕ) (value : Option ℕ)
      → ((s : P.State)
          → (r : ℕ × Option ℕ) × (t : P.State) × (try_once P fuel swd ap address value s
              ≡ (ok r, t)))
      → (s : P.State)
      → Tries
          (try_once P fuel swd ap address value)
          polls
          s
          (transfer P fuel swd ap address value s)
  unfolding transfer
  transfer-Tries ap address value returns s =
      try_from-Tries (try_once P fuel swd ap address value) returns 19 s
