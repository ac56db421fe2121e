-- ===== src/UsbBoard/Reach.antt =====
-- The boards that the words of a core, the reports and the reloads lead to.
use protocol_emulator.Base.{
  ℕ, zero, suc, ◌≡◌, refl, ap, true, false, none, some, List, [], ◌∷◌, arith, map, length, drop,
  subst,
}
use protocol_emulator.UsbBoard.State.{Board, new_board, reset}
use protocol_emulator.UsbBoard.Board.{feed, report, flushed}
use protocol_emulator.UsbBoard.Queue.{Inv, words_of}
use protocol_emulator.UsbBoard.Turns.{
  is_answer, feed_word-Inv, feed_answer-Inv, report-Inv, flushed-Inv,
}

-- `Reach held b`: the board comes to `b` while the core holds `held` of its replies. A report is made only
-- while none is pending, as python/demo_usb.py makes them: `report` itself would queue a second one. The
-- core answers a reply only while it holds one.
pub data Reach : ℕ → Board → Type 0 where
  started : (descriptors : List (ℕ × List ℕ)) → Reach 0 (new_board descriptors)
  worded :
      {held : ℕ} {b : Board} (word : ℕ)
      → is_answer word b ≡ false
      → Reach held b
      → Reach held (feed word b)
  answered :
      {held : ℕ} {b : Board} (word : ℕ)
      → is_answer word b ≡ true
      → Reach (suc held) b
      → Reach held (feed word b)
  reported :
      {held : ℕ} {b : Board} (payload : List ℕ)
      → b.pending_report ≡ none
      → Reach held b
      → Reach held (report payload b)
  written :
      {held : ℕ} {b : Board} (words : List ℕ) (replies : List (List ℕ))
      → b.replies ≡ words ∷ replies
      → Reach held b
      → Reach (suc held) (record b { replies = replies })
  reloaded :
      {held : ℕ} {b : Board} (address : ℕ)
      → Reach held b
      → Reach 0 (flushed (record b { reload = none; loaded = some address }))
  cleared : {held : ℕ} {b : Board} → Reach held b → Reach 0 (reset b)

unfoldable rest : List (List ℕ) → List (List ℕ)
rest [] = []
rest (_ ∷ xs) = xs

drop-next :
    (n : ℕ) (xs : List (ℕ × List ℕ)) (y : List ℕ) (ys : List (List ℕ))
    → map words_of (drop n xs) ≡ y ∷ ys
    → map words_of (drop (suc n) xs) ≡ ys
unfolding rest
drop-next zero [] y ys e = ap rest e
drop-next zero (x ∷ xs) y ys e = ap rest e
drop-next (suc n) [] y ys e = ap rest e
drop-next (suc n) (x ∷ xs) y ys e = drop-next n xs y ys e

written-Inv :
    (held : ℕ) (b : Board) (words : List ℕ) (replies : List (List ℕ))
    → b.replies ≡ words ∷ replies
    → Inv held b
    → Inv (suc held) (record b { replies = replies })
written-Inv held b words replies e v = record {
  counted = omega (arith, v.counted, ap length e);
  aligned =
      drop-next held b.queued words replies
        (subst (λ l. map words_of (drop held b.queued) ≡ l) e v.aligned);
  reported = v.reported;
}

-- In every board that words of the core, reports, writes, reloads and resets lead to, where each
-- report is made while none is pending and the core answers only while it holds a reply: the core
-- holds the first `held` of the queue, the replies to write are the rest of it in its order, and a
-- report is pending exactly while it is queued once, or was dropped and is to be queued again.
pub reachable-Inv : (held : ℕ) (b : Board) → Reach held b → Inv held b
unfolding new_board reset
reachable-Inv _ _ (started descriptors) = record { counted = refl; aligned = refl; reported = refl }
reachable-Inv _ _ (worded {held} {b} word e r) =
    feed_word-Inv held word b e (reachable-Inv held b r)
reachable-Inv _ _ (answered {held} {b} word e r) =
    feed_answer-Inv held word b e (reachable-Inv (suc held) b r)
reachable-Inv _ _ (reported {held} {b} payload e r) =
    report-Inv held payload b e (reachable-Inv held b r)
reachable-Inv _ _ (written {held} {b} words replies e r) =
    written-Inv held b words replies e (reachable-Inv held b r)
reachable-Inv _ _ (reloaded {held} {b} address r) =
    flushed-Inv held (record b { reload = none; loaded = some address }) (reachable-Inv held b r)
reachable-Inv _ _ (cleared r) = record { counted = refl; aligned = refl; reported = refl }
