-- ===== src/Traffic.antt =====
-- demo/traffic.py: how a capture's decode is compared with the traffic that a demo puts on the wire. A
-- problem is a constructor with what its text shows.
pub mod Judges
pub mod Runs
pub mod Crc
pub mod Divide
pub mod Bus
pub mod Can
pub mod Levels
pub mod Tests
use protocol_emulator.Base.{
  ℕ, zero, suc, ◌+◌, ◌-◌, ◌*◌, ◌%◌, ◌/◌, Bool, true, false, ◌&&◌, not, List, [], ◌∷◌, ◌++◌, map,
  Option, none, some, bit_and, bit_or, bit_xor, length, take, drop, int, ltb, ◌==◌, if◌then◌else◌,
  Result, ok, err, index_error,
}
use protocol_emulator.Base.Bits.{shr, shl}
use protocol_emulator.Base.Equality.{Eq, ◌=?◌}

pub data Problem {ℓ} (A : Type ℓ) : Type ℓ where
  differs : ℕ → A → A → Problem A
  counts : ℕ → ℕ → Problem A
  missing : A → Bool → Problem A
  dominant_start dominant_end : Problem A

module _ {ℓ} {A : Type ℓ} ⦃e : Eq A⦄ where
  -- The loop of `exactly` over `zip(decoded, expected)`, from line n on.
  unfoldable pub differ_from : ℕ → List A → List A → Option (Problem A)
  differ_from n (got ∷ decoded) (want ∷ expected) =
      let rest = differ_from (suc n) decoded expected in
      if got =? want then rest else some (differs (n + 1) got want)
  differ_from n _ _ = none

  unfoldable pub exactly : List A → List A → List (Problem A)
  unfolding differ_from
  exactly decoded expected = elim (differ_from 0 decoded expected) [
    | some p ↦ p ∷ []
    | none ↦
        if length decoded == length expected
        then []
        else counts (length decoded) (length expected) ∷ []
  ]

  -- `decoded.index(want, at) + 1`, as what is left of the decode behind it.
  unfoldable pub index_after : A → List A → Option (List A)
  index_after want [] = none
  index_after want (got ∷ decoded) = if got =? want then some decoded else index_after want decoded

  unfoldable pub in_order_from : Bool → List A → List A → List (Problem A)
  unfolding index_after
  in_order_from later decoded [] = []
  in_order_from later decoded (want ∷ expected) = elim (index_after want decoded) [
    | none ↦ missing want later ∷ []
    | some rest ↦ in_order_from true rest expected
  ]

  unfoldable pub in_order : List A → List A → List (Problem A)
  unfolding in_order_from
  in_order decoded expected = in_order_from false decoded expected

  unfoldable pub same_lines : List A → List A → Bool
  same_lines [] [] = true
  same_lines (x ∷ xs) (y ∷ ys) = (x =? y) && same_lines xs ys
  same_lines _ _ = false

  -- `decoded[i:]` for each of `starts`.
  unfoldable pub starts : A → List A → List (List A)
  starts first [] = []
  starts first (got ∷ decoded) =
      if got =? first then (got ∷ decoded) ∷ starts first decoded else starts first decoded

  unfoldable pub any_run : List A → List (List A) → Bool
  unfolding same_lines
  any_run expected [] = false
  any_run expected (from ∷ froms) =
      if same_lines (take (length expected) from) expected then true else any_run expected froms

  -- What is expected has a line at least: `expected[0]`.
  unfoldable pub run_of : List A → List A → Result (List (Problem A))
  unfolding any_run starts exactly
  run_of decoded [] = err index_error
  run_of decoded (first ∷ rest) =
      if any_run (first ∷ rest) (starts first decoded) then ok [] else elim (starts first decoded) [
        | [] ↦ ok (missing first false ∷ [])
        | from ∷ _ ↦ ok (exactly (take (length (first ∷ rest)) from) (first ∷ rest))
      ]
