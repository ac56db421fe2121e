-- ===== src/Plinkoo/Bytes.antt =====
-- The bytes in the bits that the decoder of demo/decoders/plinkoo/pd.py keeps.
use protocol_emulator.Base.{
  ℕ, zero, suc, ◌+◌, ◌*◌, ◌≤◌, ◌<◌, ◌≡◌, refl, ap, ◌∙◌, subst, List, [], ◌∷◌, ◌++◌, arith, length,
  take, drop, length-append, length-drop, take-length, drop-length, drop-append, bit_or,
}
use protocol_emulator.Base.Bits.{shl, bit_or-shl}
use protocol_emulator.Base.Slices.{pieces, pieces_of}
use protocol_emulator.Snorble.{shift_in}
use protocol_emulator.Plinkoo.{last_eight, byte_sum, total}

pub shift_in-append :
    (so_far b : ℕ) (bits : List ℕ)
    → b < 2
    → shift_in so_far (bits ++ b ∷ []) ≡ 2 * shift_in so_far bits + b
unfolding shift_in
shift_in-append so_far b [] h = bit_or-shl 1 so_far b h ∙ omega arith
shift_in-append so_far b (x ∷ bits) h = shift_in-append (bit_or (shl so_far 1) x) b bits h

pub last_eight-append : (done bits : List ℕ) → length bits ≡ 8 → last_eight (done ++ bits) ≡ bits
last_eight-append done bits h =
    subst (λ n. drop n (done ++ bits) ≡ bits) (omega (arith, length-append done bits, h))
      (drop-append done bits)

drop-append_short : (n : ℕ) (xs ys : List ℕ) → n ≤ length xs → drop n (xs ++ ys) ≡ drop n xs ++ ys
drop-append_short zero xs ys h = refl
drop-append_short (suc n) [] ys h = absurd (omega arith)
drop-append_short (suc n) (x ∷ xs) ys h = drop-append_short n xs ys (omega arith)

take-append_short : (n : ℕ) (xs ys : List ℕ) → n ≤ length xs → take n (xs ++ ys) ≡ take n xs
take-append_short zero xs ys h = refl
take-append_short (suc n) [] ys h = absurd (omega arith)
take-append_short (suc n) (x ∷ xs) ys h = ap (λ t. x ∷ t) (take-append_short n xs ys (omega arith))

no_pieces : (fuel : ℕ) → pieces_of {A = ℕ} 8 fuel [] ≡ []
no_pieces zero = refl
no_pieces (suc fuel) = refl

one_piece :
    (fuel : ℕ) (bits : List ℕ)
    → length bits ≡ 8
    → 8 ≤ fuel
    → byte_sum (pieces_of 8 fuel bits) ≡ shift_in 0 bits
unfolding byte_sum
one_piece zero bits h f = absurd (omega arith)
one_piece (suc fuel) [] h f = absurd (omega arith)
one_piece (suc fuel) (x ∷ bits) h f =
    rw (take-length 7 bits (omega arith), drop-length 7 bits (omega arith), no_pieces fuel)
      (omega arith)

pieces-append :
    (k fuel fuel' : ℕ) (done bits : List ℕ)
    → length done ≡ 8 * k
    → length bits ≡ 8
    → length done ≤ fuel'
    → length done + 8 ≤ fuel
    → byte_sum (pieces_of 8 fuel (done ++ bits))
      ≡ byte_sum (pieces_of 8 fuel' done) + shift_in 0 bits
unfolding byte_sum
pieces-append k fuel fuel' [] bits h l f' f =
    rw (no_pieces fuel') (one_piece fuel bits l f ∙ omega arith)
pieces-append zero fuel fuel' (x ∷ done) bits h l f' f = absurd (omega arith)
pieces-append (suc k) zero fuel' (x ∷ done) bits h l f' f = absurd (omega arith)
pieces-append (suc k) (suc fuel) zero (x ∷ done) bits h l f' f = absurd (omega arith)
pieces-append (suc k) (suc fuel) (suc fuel') (x ∷ done) bits h l f' f =
    rw
      (
        take-append_short 7 done bits (omega arith),
        drop-append_short 7 done bits (omega arith),
        pieces-append k fuel fuel' (drop 7 done) bits (omega (arith, length-drop 7 done)) l
            (omega (arith, length-drop 7 done)) (omega (arith, length-drop 7 done)),
      )
      (omega arith)

pub total-append :
    (k : ℕ) (done bits : List ℕ)
    → length done ≡ 8 * k
    → length bits ≡ 8
    → total (done ++ bits) ≡ total done + shift_in 0 bits
unfolding total pieces
total-append k done bits h l =
    pieces-append k (length (done ++ bits)) (length done) done bits h l (omega arith)
      (omega (arith, length-append done bits))
