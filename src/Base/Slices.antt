-- ===== src/Base/Slices.antt =====
-- `[data[i:i + n] for i in range(0, len(data), n)]`, the pieces of a list.
use protocol_emulator.Base.Lists.{
  length, take, drop, All, take-append-drop, length-take, length-drop,
}
use Prim.Native.Nat.{ℕ, zero, suc, ◌≤◌, ◌<◌}
use mathlib.Core.Path.{◌≡◌, refl, ap, ◌∙◌}
use mathlib.Core.List.{List, [], ◌∷◌, ◌++◌, flatten}
use native.Mathlib.Omega.{arith}

module _ {ℓ} {A : Type ℓ} where
  -- At most `fuel` pieces of n; no more than there are items are needed.
  abbrev pub pieces_of : ℕ → ℕ → List A → List (List A)
  pieces_of n zero xs = []
  pieces_of n (suc fuel) [] = []
  pieces_of n (suc fuel) (x ∷ xs) = take n (x ∷ xs) ∷ pieces_of n fuel (drop n (x ∷ xs))

  unfoldable pub pieces : ℕ → List A → List (List A)
  pieces n xs = pieces_of n (length xs) xs

  concat_pieces_of :
      (n fuel : ℕ) (xs : List A) → 0 < n → length xs ≤ fuel → flatten (pieces_of n fuel xs) ≡ xs
  unfolding flatten
  concat_pieces_of n zero [] p h = refl
  concat_pieces_of n zero (x ∷ xs) p h = absurd (omega arith)
  concat_pieces_of n (suc fuel) [] p h = refl
  concat_pieces_of n (suc fuel) (x ∷ xs) p h =
      ap (λ l. take n (x ∷ xs) ++ l)
        (concat_pieces_of n fuel (drop n (x ∷ xs)) p (omega (arith, length-drop n (x ∷ xs))))
      ∙ take-append-drop n (x ∷ xs)

  -- Put together, the pieces are the list.
  pub flatten-pieces : (n : ℕ) (xs : List A) → 0 < n → flatten (pieces n xs) ≡ xs
  unfolding pieces
  flatten-pieces n xs p = concat_pieces_of n (length xs) xs p (omega arith)

  pieces_of_bound :
      (n fuel : ℕ) (xs : List A)
      → 0 < n
      → All (λ piece. (0 < length piece) × (length piece ≤ n)) (pieces_of n fuel xs)
  pieces_of_bound n zero xs p = tt
  pieces_of_bound n (suc fuel) [] p = tt
  pieces_of_bound n (suc fuel) (x ∷ xs) p = (
    (omega (arith, length-take n (x ∷ xs)), omega (arith, length-take n (x ∷ xs))),
    pieces_of_bound n fuel (drop n (x ∷ xs)) p,
  )

  -- No piece is empty or longer than n.
  pub pieces_bound :
      (n : ℕ) (xs : List A)
      → 0 < n
      → All (λ piece. (0 < length piece) × (length piece ≤ n)) (pieces n xs)
  unfolding pieces
  pieces_bound n xs p = pieces_of_bound n (length xs) xs p
