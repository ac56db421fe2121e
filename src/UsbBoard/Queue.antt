-- ===== src/UsbBoard/Queue.antt =====
-- The replies that the board keeps account of: which the core holds, which wait to be written, and
-- where the one report is.
use protocol_emulator.Base.{
  ℕ, zero, ◌+◌, ◌≤◌, ◌≡◌, refl, ap, Bool, true, false, Option, none, some, List, [], ◌∷◌, ◌++◌, map,
  arith, length, take, drop, int, ◌==◌, length-append, drop-append_le, suc,
}
use mathlib.Core.List.{map-append}
use protocol_emulator.UsbBoard.State.{Board}
use protocol_emulator.UsbBoard.Board.{index_from, any_report}

abbrev pub words_of : ℕ × List ℕ → List ℕ
words_of entry = entry.1

-- How many reports are queued.
abbrev pub reports : List (ℕ × List ℕ) → ℕ
reports [] = 0
reports ((endpoint, _) ∷ queued) = int (endpoint == 1) + reports queued

abbrev pub is_pending : Option (List ℕ) → Bool
is_pending none = false
is_pending (some _) = true

-- The core holds the first `held` of the queue, and the replies to write are the rest of it. A
-- report is pending exactly while it is queued once, or dropped and to be queued again.
pub record Fits (held : ℕ) (queued : List (ℕ × List ℕ)) (replies : List (List ℕ)) (dropped : Bool)
    (pending : Option (List ℕ)) : Type 0 where
  pub counted : length queued ≡ held + length replies
  pub aligned : map words_of (drop held queued) ≡ replies
  pub reported : reports queued + int dropped ≡ int (is_pending pending)

abbrev pub Inv : ℕ → Board → Type 0
Inv held b = Fits held b.queued b.replies b.dropped b.pending_report

pub reports-append : (xs ys : List (ℕ × List ℕ)) → reports (xs ++ ys) ≡ reports xs + reports ys
reports-append [] ys = omega arith
reports-append (x ∷ xs) ys = omega (arith, reports-append xs ys)

pub any_report_lem : (xs : List (ℕ × List ℕ)) → reports xs ≤ 1 → int (any_report xs) ≡ reports xs
any_report_lem [] h = refl
any_report_lem (x ∷ xs) h = ground (arith, any_report_lem xs)

pub index_from_sum : (h r : ℕ) → index_from (h + r) r ≡ h
index_from_sum h r = ground arith

pub length-insert :
    {A : Type 0} (n : ℕ) (x : A) (xs : List A)
    → length (take n xs ++ x ∷ drop n xs) ≡ suc (length xs)
length-insert zero x xs = refl
length-insert (suc n) x [] = refl
length-insert (suc n) x (_ ∷ xs) = ap suc (length-insert n x xs)

pub absurd : (n : ℕ) → suc n ≤ 0 → ⊥
absurd n h = omega (arith, h)

pub drop-insert :
    {A : Type 0} (n : ℕ) (x : A) (xs : List A)
    → n ≤ length xs
    → drop n (take n xs ++ x ∷ drop n xs) ≡ x ∷ drop n xs
drop-insert zero x xs h = refl
drop-insert (suc n) x [] h = elim (absurd n h) [ ]
drop-insert (suc n) x (_ ∷ xs) h = drop-insert n x xs (omega (arith, h))

reports-insert :
    (n : ℕ) (words : List ℕ) (xs : List (ℕ × List ℕ))
    → reports (take n xs ++ (0, words) ∷ drop n xs) ≡ reports xs
reports-insert zero words xs = omega arith
reports-insert (suc n) words [] = omega arith
reports-insert (suc n) words ((endpoint, _) ∷ xs) =
    ap (λ r. int (endpoint == 1) + r) (reports-insert n words xs)

-- A reply joins both queues.
pub joined-Fits :
    (held endpoint : ℕ) (words : List ℕ) (qs : List (ℕ × List ℕ)) (rs : List (List ℕ))
    (dropped was : Bool) (pending : Option (List ℕ))
    → Fits held qs rs was pending
    → int (endpoint == 1) + int dropped ≡ int was
    → Fits held (qs ++ (endpoint, words) ∷ []) (rs ++ words ∷ []) dropped pending
joined-Fits held endpoint words qs rs dropped was pending v e = record {
  counted =
      omega (
        arith,
        length-append qs ((endpoint, words) ∷ []),
        length-append rs (words ∷ []),
        v.counted,
      );
  aligned =
      rw (drop-append_le held qs ((endpoint, words) ∷ []) (omega (arith, v.counted)), map-append)
        (ap (λ l. l ++ words ∷ []) v.aligned);
  reported = omega (arith, reports-append qs ((endpoint, words) ∷ []), v.reported, e);
}

-- The first of the queue leaves it: of the replies that the core holds.
module _ (held endpoint : ℕ) (words : List ℕ) (qs : List (ℕ × List ℕ)) (rs : List (List ℕ))
    (dropped : Bool) (pending : Option (List ℕ))
    (v : Fits (suc held) ((endpoint, words) ∷ qs) rs dropped pending) where
  answered-count : length qs ≡ held + length rs
  answered-count = omega (arith, v.counted)

  pub answered_control-Fits : (endpoint == 1) ≡ false → Fits held qs rs dropped pending
  answered_control-Fits e = record {
    counted = answered-count;
    aligned = v.aligned;
    reported = ground (arith, v.reported);
  }

  pub answered_report-Fits : (endpoint == 1) ≡ true → Fits held qs rs dropped none
  answered_report-Fits e = record {
    counted = answered-count;
    aligned = v.aligned;
    reported = ground (arith, v.reported);
  }

  pub dropped_report-Fits : (endpoint == 1) ≡ true → Fits held qs rs true pending
  dropped_report-Fits e = record {
    counted = answered-count;
    aligned = v.aligned;
    reported = ground (arith, v.reported);
  }

  -- A control reply goes back, behind what the core holds.
  pub dropped_control-Fits :
      (endpoint == 1) ≡ false
      → Fits held
          (take (index_from (length qs) (length rs)) qs
            ++ (0, words) ∷ drop (index_from (length qs) (length rs)) qs)
          (words ∷ rs)
          dropped
          pending
  dropped_control-Fits e = rw answered-count (
      rw (index_from_sum held (length rs)) record {
        counted = omega (arith, length-insert held (0, words) qs, answered-count);
        aligned =
            rw (drop-insert held (0, words) qs (omega (arith, answered-count)))
              (ap (λ l. words ∷ l) v.aligned);
        reported = ground (arith, v.reported, reports-insert held words qs);
      })
