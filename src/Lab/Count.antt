-- ===== src/Lab/Count.antt =====
-- How the rows that count grow in number, for `Limits.count` of demo/lab.py.
use Prim.Native.String.{String}
use text.Mathlib.TextEquality.{eq_iff}
use protocol_emulator.Base.{
  ℕ, ◌+◌, ◌≤◌, ◌<◌, ◌≡◌, Bool, true, false, List, [], ◌∷◌, ◌++◌, Option, some, if◌then◌else◌, arith,
  Bool-cases, inl, inr, subst,
}
use protocol_emulator.Lab.{Row, on_bench, counts, count}

count-append :
    (now span : ℕ) (who : Option String) (b : Bool) (rows : List Row) (r : Row)
    → count now span who b (rows ++ r ∷ [])
      ≡ count now span who b rows + (if counts now span who b r then 1 else 0)
unfolding count
count-append now span who b [] r = omega arith
count-append now span who b (x ∷ rows) r = omega (arith, count-append now span who b rows r)

counts-later :
    (now later span : ℕ) (who : Option String) (b : Bool) (r : Row)
    → now ≤ later
    → counts later span who b r ≡ true
    → counts now span who b r ≡ true
unfolding counts
counts-later now later span who b r h c = ground arith

-- As time goes on, no more rows count.
count-later :
    (now later span : ℕ) (who : Option String) (b : Bool) (rows : List Row)
    → now ≤ later
    → count later span who b rows ≤ count now span who b rows
unfolding count
count-later now later span who b [] h = omega arith
count-later now later span who b (r ∷ rows) h =
    ground (arith, counts-later now later span who b r, count-later now later span who b rows h)

-- A row that is not of the bench does not count.
pub counts-model :
    (now span : ℕ) (who : Option String) (r : Row)
    → on_bench r.run ≡ false
    → counts now span who true r ≡ false
unfolding counts
counts-model now span who r h = ground (arith, h)

counts-other :
    (now span : ℕ) (who : String) (b : Bool) (r : Row)
    → counts now span (some who) b r ≡ true
    → r.who ≡ who
unfolding counts
counts-other now span who b r h = ground (arith, eq_iff r.who who)

module _ (now later span n : ℕ) (rows : List Row) (r : Row) (l : now ≤ later) where
  pub stays :
      (who : Option String)
      → counts later span who true r ≡ false
      → count later span who true rows ≤ n
      → count later span who true (rows ++ r ∷ []) ≤ n
  stays who c h = rw (count-append later span who true rows r) (rw c (omega arith))

  pub grows :
      (who : Option String)
      → count now span who true rows < n
      → count later span who true (rows ++ r ∷ []) ≤ n
  grows who h =
      rw (count-append later span who true rows r)
        (ground (arith, count-later now later span who true rows l))

  -- Of the one that submits there is room for one more; the rows of others stay as they are.
  pub own_grows :
      (who : String)
      → count later span (some who) true rows ≤ n
      → count now span (some r.who) true rows < n
      → count later span (some who) true (rows ++ r ∷ []) ≤ n
  own_grows who old room = elim (Bool-cases (counts later span (some who) true r)) [
    | inl c ↦ grows (some who) (
        subst (λ w. count now span (some w) true rows < n) (counts-other later span who true r c)
          room)
    | inr c ↦ stays (some who) c old
  ]
