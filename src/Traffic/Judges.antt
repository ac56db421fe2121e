-- ===== src/Traffic/Judges.antt =====
-- What the comparisons of demo/traffic.py find nothing wrong with.
use protocol_emulator.Base.{
  ℕ, suc, ◌≡◌, refl, Bool, true, false, List, [], ◌∷◌, ◌↔◌, none, some, length, arith, Bool-cases,
  inl, inr, Option-cases, subst,
}
use protocol_emulator.Base.Equality.{Eq, ◌=?◌}
use protocol_emulator.Traffic.{differ_from, exactly, index_after, in_order_from, in_order}

-- The expected lines are in the decode, in order, with any others between.
data Within {ℓ} {A : Type ℓ} : List A → List A → Type ℓ where
  nothing : {decoded : List A} → Within [] decoded
  passed :
      {x : A} {expected decoded : List A} → Within expected decoded → Within expected (x ∷ decoded)
  found :
      {x : A} {expected decoded : List A}
      → Within expected decoded
      → Within (x ∷ expected) (x ∷ decoded)

module _ {ℓ} {A : Type ℓ} ⦃e : Eq A⦄ where
  differ_from-eq_none :
      (n : ℕ) (decoded expected : List A)
      → differ_from n decoded expected ≡ none
      → length decoded ≡ length expected
      → decoded ≡ expected
  unfolding differ_from
  differ_from-eq_none n [] [] d h = refl
  differ_from-eq_none n [] (w ∷ expected) d h = absurd (omega arith)
  differ_from-eq_none n (g ∷ decoded) [] d h = absurd (omega arith)
  differ_from-eq_none n (g ∷ decoded) (w ∷ expected) d h =
      ground (arith, e.beq_iff g w, differ_from-eq_none (suc n) decoded expected)

  differ_from_self : (n : ℕ) (xs : List A) → differ_from n xs xs ≡ none
  unfolding differ_from
  differ_from_self n [] = refl
  differ_from_self n (x ∷ xs) = rw ((e.beq_iff x x).1 refl) (differ_from_self (suc n) xs)

  exactly_nothing : (decoded expected : List A) → exactly decoded expected ≡ [] → decoded ≡ expected
  unfolding exactly
  exactly_nothing decoded expected h = ground (arith, differ_from-eq_none 0 decoded expected)

  exactly_self : (xs : List A) → exactly xs xs ≡ []
  unfolding exactly
  exactly_self xs = ground (arith, differ_from_self 0 xs)

  -- `exactly` finds nothing wrong exactly where the decode is what is expected.
  pub exactly_lem :
      (decoded expected : List A) → (exactly decoded expected ≡ []) ↔ (decoded ≡ expected)
  exactly_lem decoded expected = (
    exactly_nothing decoded expected,
    λ h. subst (λ x. exactly decoded x ≡ []) h (exactly_self decoded),
  )

  Within-tail :
      {w : A} {expected decoded : List A} → Within (w ∷ expected) decoded → Within expected decoded
  Within-tail (passed h) = passed (Within-tail h)
  Within-tail (found h) = passed h

  index_after-Within :
      {w : A} {expected decoded : List A}
      → Within (w ∷ expected) decoded
      → (rest : List A) × (index_after w decoded ≡ some rest) × Within expected rest
  unfolding index_after
  index_after-Within {w} (passed {x = x} {decoded = decoded} h) = elim (Bool-cases (x =? w)) [
    | inl same ↦ (decoded, rw same refl, Within-tail h)
    | inr other ↦ rw other (index_after-Within h)
  ]
  index_after-Within (found {x = x} {decoded = decoded} h) =
      (decoded, rw ((e.beq_iff x x).1 refl) refl, h)

  Within-index_after :
      (w : A) (expected decoded rest : List A)
      → index_after w decoded ≡ some rest
      → Within expected rest
      → Within (w ∷ expected) decoded
  unfolding index_after
  Within-index_after w expected [] rest i h = absurd (cc)
  Within-index_after w expected (g ∷ decoded) rest i h = elim (Bool-cases (g =? w)) [
    | inl same ↦
        let left : decoded ≡ rest = ground (arith, i, same) in
        let x : g ≡ w = (e.beq_iff g w).0 same in rw (x, left) (found h)
    | inr other ↦ passed (Within-index_after w expected decoded rest (rw other at i) h)
  ]

  in_order_sound :
      (later : Bool) (expected decoded : List A)
      → in_order_from later decoded expected ≡ []
      → Within expected decoded
  unfolding in_order_from
  in_order_sound later [] decoded h = nothing
  in_order_sound later (w ∷ expected) decoded h = elim (Option-cases (index_after w decoded)) [
    | inl lost ↦ absurd (cc)
    | inr (rest, i) ↦
        Within-index_after w expected decoded rest i
          (in_order_sound true expected rest (rw (in_order_from, i) at h))
  ]

  in_order_complete :
      (later : Bool) (expected decoded : List A)
      → Within expected decoded
      → in_order_from later decoded expected ≡ []
  unfolding in_order_from
  in_order_complete later [] decoded h = refl
  in_order_complete later (w ∷ expected) decoded h =
      let (rest, i, r) = index_after-Within h in
      rw (in_order_from, i) (in_order_complete true expected rest r)

  -- `in_order` finds nothing wrong exactly where the decode has the expected lines in order,
  -- whatever stands between them.
  in_order_lem :
      (decoded expected : List A) → (in_order decoded expected ≡ []) ↔ Within expected decoded
  unfolding in_order
  in_order_lem decoded expected =
      (in_order_sound false expected decoded, in_order_complete false expected decoded)
