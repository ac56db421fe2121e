-- ===== src/UsbBoard/Drain.antt =====
-- The loop of `drain` ends, whatever the core goes on pushing.
use protocol_emulator.Base.{
  ℕ, zero, suc, ◌+◌, ◌-◌, ◌*◌, ◌≤◌, ◌<◌, ◌≡◌, ◌⊎◌, refl, ◌&&◌, List, [], ◌∷◌, ◌++◌, arith, length,
  replicate, min, bit_and, ltb, ◌==◌, Result, ok, err, M, length-append, length-replicate,
  Bool-cases, inl, inr,
}
use protocol_emulator.Base.Bits.{shr, bit_and-15}
use protocol_emulator.Host.Port.{Port}
use protocol_emulator.Host.Registers.{status_reg, rx_reg}
use protocol_emulator.Host.Status.{status_fields}
use protocol_emulator.Host.Methods.{read_if, first_word, read_one, pop, status}
use protocol_emulator.UsbBoard.Packets.{quiet, drain_limit}
use protocol_emulator.UsbBoard.Service.{drain_turn, drain_from, drain}

-- A call comes back with a value of which `Q` holds, and does not raise.
pub data Returns {S A : Type 0} (Q : A → Type 0) : Result A × S → Type 0 where
  returns : {a : A} {t : S} → Q a → Returns Q (ok a, t)

continues :
    {S A B : Type 0} {Q : A → Type 0} {R : B → Type 0} (f : A → M S B) (r : Result A × S)
    → Returns Q r
    → ((a : A) (t : S) → Q a → Returns R (f a t))
    → Returns {S = S} R (elim r.0 [ ok a ↦ f a r.1 | err e ↦ (err e, r.1) ])
continues f _ (returns q) k = k _ _ q

-- A port whose reads come back, with as many words as were asked for.
abbrev pub IsExact : Port → Type 0
IsExact P =
    (reg count : ℕ) (s : P.State) → Returns (λ words. length words ≡ count) (P.read reg count s)

never : length {A = ℕ} [] ≡ 1 → ⊥
never e = omega (arith, e)

module _ (P : Port) (exact : IsExact P) where
  open P use {State}

  read_one-Returns : (reg : ℕ) (s : State) → Returns (λ _. Unit {0}) (read_one P reg s)
  unfolding read_one
  read_one-Returns reg s =
      continues (λ words. first_word words) (P.read reg 1 s) (exact reg 1 s)
        (λ words t one. first words t one)
    where
      first :
          (words : List ℕ) (t : State)
          → length words ≡ 1
          → Returns (λ _. Unit {0}) (first_word {S = State} words t)
      first [] t one = elim (never one) [ ]
      first (w ∷ words) t one = returns tt

  status-Returns : (s : State) → Returns (λ _. Unit {0}) (status P s)
  unfolding status
  status-Returns s =
      continues (λ w t. (ok (status_fields w), t)) (read_one P status_reg s)
        (read_one-Returns status_reg s) (λ w t _. returns tt)

  read_if-Returns :
      (level : ℕ) (s : State) → Returns (λ words. length words ≡ level) (read_if P level s)
  read_if-Returns level s = elim (Bool-cases (level == 0)) [
    | inl e ↦ rw e (returns (ground (arith, e)))
    | inr e ↦ rw e (exact rx_reg level s)
  ]

  pop-Returns : (count : ℕ) (s : State) → Returns (λ words. length words ≡ count) (pop P count s)
  unfolding pop status
  pop-Returns count s = continues _ (status P s) (status-Returns s) (λ st t _.
      let level : ℕ = min count st.rx_level in
      continues (λ words u. (ok (words ++ replicate (count - level) 0), u)) (read_if P level t)
        (read_if-Returns level t)
        (λ words u n. returns (
          omega (
            arith,
            n,
            length-append words (replicate (count - level) 0),
            length-replicate {A = ℕ} (count - level) 0,
          ))))

  -- What the loop gives: the words, and the last status.
  abbrev pub Drained : List ℕ × ℕ → Type 0
  Drained (found, status) =
      (length found ≤ 78) × ((drain_limit ≤ length found) ⊎ (bit_and (shr status 10) 15 ≡ 0))

  abbrev left_to_do : ℕ → ℕ → ℕ
  left_to_do idle size = (quiet - idle) + 6 * (drain_limit - size)

  drain_turn-Returns :
      (fuel idle s : ℕ) (found : List ℕ) (level : ℕ) (t : State)
      → idle < quiet
      → length found < drain_limit
      → bit_and (shr s 10) 15 ≡ level
      → left_to_do idle (length found) < suc fuel
      → ((idle status : ℕ) (found : List ℕ) (t : State)
          → length found ≤ 78
          → (0 < idle → bit_and (shr status 10) 15 ≡ 0)
          → left_to_do idle (length found) < fuel
          → Returns Drained (drain_from P fuel idle found status t))
      → Returns Drained (drain_turn P (drain_from P fuel) idle found s level t)
  unfolding drain_turn
  drain_turn-Returns fuel idle s found zero t busy room e enough again =
      again (suc idle) s found t (omega (arith, room)) (λ _. e) (omega (arith, busy, enough))
  drain_turn-Returns fuel idle s found (suc level) t busy room e enough again =
      continues (λ more. drain_from P fuel 0 (found ++ more) s) (pop P (suc level) t)
        (pop-Returns (suc level) t)
        (λ more u n.
          again 0 s (found ++ more) u
            (omega (arith, length-append found more, n, room, e, bit_and-15 (shr s 10)))
            (λ z. elim (not_less z) [ ])
            (omega (arith, length-append found more, n, room, busy, enough)))
    where
      not_less : 0 < 0 → ⊥
      not_less z = omega (arith, z)

  drain_from-Returns :
      (fuel idle status : ℕ) (found : List ℕ) (t : State)
      → length found ≤ 78
      → (0 < idle → bit_and (shr status 10) 15 ≡ 0)
      → left_to_do idle (length found) < fuel
      → Returns Drained (drain_from P fuel idle found status t)
  unfolding drain_from
  drain_from-Returns zero idle last found t size empty enough = elim (no_fuel enough) [ ]
    where
      no_fuel : left_to_do idle (length found) < 0 → ⊥
      no_fuel z = omega (arith, z)
  drain_from-Returns (suc fuel) idle last found t size empty enough =
      elim (Bool-cases (ltb idle quiet && ltb (length found) drain_limit)) [
        | inl e ↦
            rw (drain_from, e)
              (continues _ (read_one P status_reg t) (read_one-Returns status_reg t) (λ s u _.
                drain_turn-Returns fuel idle s found (bit_and (shr s 10) 15) u (ground (arith, e))
                  (ground (arith, e)) refl enough (drain_from-Returns fuel)))
        | inr e ↦
            rw (drain_from, e)
              (returns (
                size,
                elim (Bool-cases (ltb (length found) drain_limit)) [
                  | inl less ↦ inr (empty (ground (arith, e, less)))
                  | inr full ↦ inl (ground (arith, full))
                ],
              ))
      ]

  -- Over a port whose reads come back with the words asked for, 390 turns are enough for `drain`:
  -- it returns, with 78 words at most, and the status that it read last had an empty rx fifo
  -- unless the limit of 64 words was reached.
  pub drain_lem : (fuel : ℕ) (s : State) → 390 ≤ fuel → Returns Drained (drain P fuel s)
  unfolding drain
  drain_lem fuel s enough =
      drain_from-Returns fuel 0 0 [] s (omega arith) (λ _. refl) (omega (arith, enough))
