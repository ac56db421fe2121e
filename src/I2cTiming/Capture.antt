-- ===== src/I2cTiming/Capture.antt =====
-- A whole capture, from a checker that has seen nothing.
use protocol_emulator.Base.{ℕ, ◌≤◌, List, [], ◌∷◌, arith}
use protocol_emulator.I2cTiming.{Checker, new_checker, Mode}
use protocol_emulator.I2cTiming.Edges.{edge, finish, check_edges}
use protocol_emulator.I2cTiming.Order.{
  IsOrdered, IsOrdered-past, AllInOrder, append-AllInOrder, AllInOrder-past, clock-AllInOrder,
}
use protocol_emulator.I2cTiming.Kept.{edge-Good}

-- The edges come in order, between two instants.
abbrev pub Between : ℕ → ℕ → List (ℕ × ℕ × ℕ) → Type 0
Between now end [] = now ≤ end
Between now end ((at, scl, sda) ∷ edges) = (now ≤ at) × Between at end edges

Between-le : (now end : ℕ) (edges : List (ℕ × ℕ × ℕ)) → Between now end edges → now ≤ end
Between-le now end [] h = h
Between-le now end ((at, scl, sda) ∷ edges) h = omega (arith, Between-le at end edges h.1)

from_here :
    (now end : ℕ) (edges : List (ℕ × ℕ × ℕ)) (c : Checker)
    → IsOrdered now c
    → Between now end edges
    → AllInOrder end (check_edges edges c).1
unfolding check_edges finish
from_here now end [] c o h = clock-AllInOrder end c
from_here now end ((at, scl, sda) ∷ edges) c o h =
    let g = edge-Good at scl sda c (IsOrdered-past now at c h.0 o) in
    append-AllInOrder (AllInOrder-past (Between-le at end edges h.1) g.1)
      (from_here at end edges (edge at scl sda c).0 g.0 h.1)

-- Of a capture's edges in order: every result but that of fSCL is on an interval that ends no
-- earlier than it starts, and no later than the last edge.
pub check_edges-AllInOrder :
    (rate : ℕ) (mode : Mode) (now end : ℕ) (edges : List (ℕ × ℕ × ℕ))
    → Between now end edges
    → AllInOrder end (check_edges edges (new_checker rate mode)).1
check_edges-AllInOrder rate mode now end edges h =
    from_here now end edges (new_checker rate mode) fresh h
  where
    fresh : IsOrdered now (new_checker rate mode)
    fresh =
        unfold new_checker in
        record {
          start_past = tt;
          stop_past = tt;
          rise_past = tt;
          fall_past = tt;
          changes_past = tt;
          changes_after = tt;
        }
